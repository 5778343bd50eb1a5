-- ===== src/Serial/Tests.antt =====
-- Runs of the serial driver (internal/driver/serial.go) on a scale that answers in two pieces.
use quantix_cnnector_go.Prelude.{◌≡◌, refl, true, false, none, some, [], ◌∷◌, inr, length}
use quantix_cnnector_go.Prelude.Int.{pos}
use quantix_cnnector_go.Prelude.Text.{codes, eq_bytes}
use quantix_cnnector_go.Value.{string, Fields, field, end, errorf}
use quantix_cnnector_go.Value.Toy.{toy}
use quantix_cnnector_go.Value.Maps.{get}
use quantix_cnnector_go.Value.Sprint.{sprint}
use quantix_cnnector_go.Modbus.Params.{as_string}
use quantix_cnnector_go.Serial.{
  Serial, Port, new_serial_driver, connect, disconnect, execute_action,
}
use quantix_cnnector_go.Serial.Receive.{cut}
use quantix_cnnector_go.Serial.Receipts.{Receipt, execute_action-Receipt}

abbrev scale : Port
scale = record {
  write = λ b. inr (pos (length b));
  start = 0;
  ctx_deadline = none;
  turns =
      record { now = 10; port_read = inr (codes "12.5 ") }
      ∷ record { now = 20; port_read = inr (codes "kg\r\n13") }
      ∷ [];
}

abbrev line : Fields
line = field (codes "delimiter") (string (codes "\\r\\n")) end

abbrev params : Fields
params = field (codes "port") (string (codes "COM3")) end

abbrev up : Serial
up = (connect toy params false (λ name mode. none) new_serial_driver).1

cuts : cut (codes "\r\n") (codes "12.5 kg\r\n13") ≡ codes "12.5 kg\r\n"
unfolding cut
cuts = refl

-- The driver's last error stays after a disconnect.
keeps_error :
    disconnect (connect toy params false (λ name mode. some (codes "busy")) new_serial_driver).1
    ≡ record { port = false; connected = false; last_err = codes "serial open failed: busy" }
unfolding disconnect connect as_string get eq_bytes sprint
keeps_error = refl

up-port : up.port ≡ true
unfolding connect as_string get eq_bytes sprint
up-port = refl

execute_action-Receipt_example :
    Receipt toy
      (λ s. errorf s)
      scale
      up
      line
      scale.turns
      (execute_action toy (λ s. errorf s) scale up (codes "serial.receive") line)
execute_action-Receipt_example = execute_action-Receipt toy (λ s. errorf s) scale up line up-port
