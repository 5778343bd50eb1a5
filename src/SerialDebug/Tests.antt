-- ===== src/SerialDebug/Tests.antt =====
-- Runs of the serial debugger (internal/service/serial_debug_service.go) on a port that opens.
use quantix_cnnector_go.Prelude.{◌≡◌, refl, false, none, List, [], ◌∷◌, inr, arith, take, leb}
use quantix_cnnector_go.Prelude.Int.{pos}
use quantix_cnnector_go.Prelude.Text.{
  codes, eq_bytes, to_lower, trim_space, hex_decode_string, replace_all,
}
use quantix_cnnector_go.Value.{string, Fields, field, end}
use quantix_cnnector_go.Value.Toy.{toy}
use quantix_cnnector_go.Value.Maps.{get}
use quantix_cnnector_go.Value.Sprint.{sprint}
use quantix_cnnector_go.SerialDebug.{
  SerialDebugService, SerialPort, new_serial_debug_service, open_port, close_port,
}
use quantix_cnnector_go.SerialDebug.Payload.{Numbers, build_payload}
use quantix_cnnector_go.SerialDebug.Reading.{Turn, complete, read_loop}
use quantix_cnnector_go.SerialDebug.Reading.Received.{Delivers, received, read_loop-received}
use quantix_cnnector_go.SerialDebug.Log.{IsLog, Numbered, pull_logs}
use quantix_cnnector_go.SerialDebug.Log.History.{fresh, after, opens, closes, Reach-IsLog}
use quantix_cnnector_go.SerialDebug.Log.Pulling.{IsExact, pull_logs-Numbered}

abbrev numbers : Numbers
numbers = record { scan = λ s. none; at_least_two = λ f. leb 2 f; hex_error = λ s. codes "bad" }

abbrev line : SerialPort
line = record { open_error = λ name mode. none; write = λ b. inr (pos 3) }

abbrev params : Fields
params = field (codes "port") (string (codes "COM3")) end

abbrev up : SerialDebugService
up = (open_port toy numbers line [] new_serial_debug_service params).1

abbrev down : SerialDebugService
down = (close_port toy numbers line [] up).1

abbrev turns : List Turn
turns =
    record { ended = false; now = 5; port_read = inr (codes "ab") }
    ∷ record { ended = false; now = 6; port_read = inr (codes "cd") }
    ∷ record { ended = false; now = 99; port_read = inr [] }
    ∷ []

reads : read_loop 50 3 [] turns ≡ complete (codes "abc")
unfolding read_loop
reads = refl

payloads :
    (build_payload numbers (codes "0a 0B") (codes "HEX") (codes "crlf"))
    ≡ inr (10 ∷ 11 ∷ 13 ∷ 10 ∷ [])
unfolding build_payload eq_bytes to_lower trim_space hex_decode_string replace_all
payloads = refl

Reach-IsLog_example : IsLog down
Reach-IsLog_example =
    Reach-IsLog toy numbers line
      (after (after fresh (opens new_serial_debug_service [] params)) (closes up []))

read_loop-received_example : Delivers (take 3 (received 50 3 turns)) (read_loop 50 3 [] turns)
read_loop-received_example = read_loop-received 50 3 turns

exact : IsExact toy
exact k h = refl

down-IsLog : IsLog down
down-IsLog =
    Reach-IsLog toy numbers line
      (after (after fresh (opens new_serial_debug_service [] params)) (closes up []))

pull_logs-Numbered_example :
    Numbered 1
      (pull_logs toy down (pos 1) (pos 10)).entries
      (pull_logs toy down (pos 1) (pos 10)).next_seq
unfolding close_port open_port trim_space sprint get eq_bytes new_serial_debug_service
pull_logs-Numbered_example =
    pull_logs-Numbered toy exact down 1 (pos 10) down-IsLog (omega arith) (omega arith)
      (omega arith) (omega arith)
