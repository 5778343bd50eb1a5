-- ===== src/SerialDebug/Log/History.antt =====
-- The log after any use of the debugger (Open, Close, Send, Read).
use quantix_cnnector_go.Prelude.{
  ℕ, Bool, true, false, Bool-cases, Option, none, some, inl, inr, ◌⊎◌, arith, if◌then◌else◌, List,
  [], ◌∷◌, ◌++◌, ◌*◌, ◌+◌,
}
use quantix_cnnector_go.Prelude.Int.{ℤ, pos_part}
use quantix_cnnector_go.Prelude.Text.{Bytes, codes, trim_space}
use quantix_cnnector_go.Value.{Libs, Error, Fields, errorf}
use quantix_cnnector_go.Value.Maps.{get}
use quantix_cnnector_go.Value.Sprint.{sprint}
use quantix_cnnector_go.Config.Mappings.{is_empty}
use quantix_cnnector_go.SerialDebug.{
  SerialDebugService, SerialPort, new_serial_debug_service, open_port, opened, mode_of, settings_of,
  connected_text, close_port, send, built, written, tx_text,
}
use quantix_cnnector_go.SerialDebug.Payload.{Numbers, build_payload}
use quantix_cnnector_go.SerialDebug.Reading.{
  Turn, ReadEnd, canceled, complete, failed, waiting, returned, read, read_ended, read_loop,
  bytes_wanted,
}
use quantix_cnnector_go.SerialDebug.Log.{IsLog, append_log-IsLog}

either-IsLog :
    {A : Type 0} (b : Bool) (x y : A × SerialDebugService)
    → IsLog x.1
    → IsLog y.1
    → IsLog (if b then x else y).1
either-IsLog true x y h k = h
either-IsLog false x y h k = k

module _ (lib : Libs) (numbers : Numbers) (line : SerialPort) where
  pub data Step : SerialDebugService → SerialDebugService → Type 0 where
    opens :
        (s : SerialDebugService) (now : Bytes) (params : Fields)
        → Step s (open_port lib numbers line now s params).1
    closes : (s : SerialDebugService) (now : Bytes) → Step s (close_port lib numbers line now s).1
    sends :
        (s : SerialDebugService) (now text data_format encoding line_ending : Bytes)
        → Step s (send lib numbers line now s text data_format encoding line_ending).1
    reads :
        (s : SerialDebugService) (now encoding : Bytes) (max_bytes timeout_ms : ℤ) (start : ℕ)
        (turns : List Turn)
        → Step s (read now encoding s max_bytes timeout_ms start turns).1

  pub data Reach : SerialDebugService → Type 0 where
    fresh : Reach new_serial_debug_service
    after : {s s' : SerialDebugService} → Reach s → Step s s' → Reach s'

  opened-IsLog :
      (now : Bytes) (s : SerialDebugService) (port_name : Bytes) (params : Fields)
      (e : Option Error)
      → IsLog s
      → IsLog (opened lib numbers line now s port_name params e).1
  unfolding opened
  opened-IsLog now s port_name params none i =
      append_log-IsLog now
        (record s {
          port = true;
          settings = settings_of lib numbers line now port_name params;
          last_err = [];
        })
        (codes "SYS") [] (connected_text lib numbers line now port_name params)
        (record { short = i.short; since = i.since; numbered = i.numbered })
  opened-IsLog now s port_name params (some e) i =
      append_log-IsLog now (record s { last_err = e.text }) (codes "ERR") []
        (codes "Open failed: " ++ e.text)
        (record { short = i.short; since = i.since; numbered = i.numbered })

  open_port-IsLog :
      (now : Bytes) (s : SerialDebugService) (params : Fields)
      → IsLog s
      → IsLog (open_port lib numbers line now s params).1
  unfolding open_port
  open_port-IsLog now s params i =
      let port_name : Bytes = trim_space (sprint lib (get params (codes "port"))) in
      let j : IsLog (record s { port = false }) = record {
        short = i.short;
        since = i.since;
        numbered = i.numbered;
      } in
      elim (Bool-cases (is_empty port_name)) [
        | inl e ↦ rw e j
        | inr e ↦ rw e (
            opened-IsLog now (record s { port = false }) port_name params
              (line.open_error port_name (mode_of lib numbers line now params)) j)
      ]

  written-IsLog :
      (now : Bytes) (s : SerialDebugService) (data_format encoding payload : Bytes) (r : Error ⊎ ℤ)
      → IsLog s
      → IsLog (written lib numbers line now s data_format encoding payload r).1
  written-IsLog now s data_format encoding payload (inl e) i = record {
    short = i.short;
    since = i.since;
    numbered = i.numbered;
  }
  written-IsLog now s data_format encoding payload (inr n) i =
      append_log-IsLog now s (codes "TX") payload (tx_text lib numbers line now data_format payload)
        i

  built-IsLog :
      (now : Bytes) (s : SerialDebugService) (data_format encoding : Bytes) (r : Error ⊎ Bytes)
      → IsLog s
      → IsLog (built lib numbers line now s data_format encoding r).1
  built-IsLog now s data_format encoding (inl e) i = i
  built-IsLog now s data_format encoding (inr payload) i =
      written-IsLog now s data_format encoding payload (line.write payload) i

  send-IsLog :
      (now : Bytes) (s : SerialDebugService) (text data_format encoding line_ending : Bytes)
      → IsLog s
      → IsLog (send lib numbers line now s text data_format encoding line_ending).1
  unfolding send
  send-IsLog now s text data_format encoding line_ending i =
      let payload : Error ⊎ Bytes = build_payload numbers text data_format line_ending in
      either-IsLog s.port (built lib numbers line now s data_format encoding payload)
        (inl (errorf (codes "serial debugger is not connected")), s)
        (built-IsLog now s data_format encoding payload i) i

  read_ended-IsLog :
      (now encoding : Bytes) (s : SerialDebugService) (e : ReadEnd)
      → IsLog s
      → IsLog (read_ended now encoding s e).1
  unfolding read_ended
  read_ended-IsLog now encoding s (canceled buf) i = i
  read_ended-IsLog now encoding s (complete []) i = i
  read_ended-IsLog now encoding s (complete (b ∷ buf)) i =
      append_log-IsLog now s (codes "RX") (b ∷ buf) (b ∷ buf) i
  read_ended-IsLog now encoding s (failed e) i = record {
    short = i.short;
    since = i.since;
    numbered = i.numbered;
  }
  read_ended-IsLog now encoding s waiting i = i

  read-IsLog :
      (now encoding : Bytes) (s : SerialDebugService) (max_bytes timeout_ms : ℤ) (start : ℕ)
      (turns : List Turn)
      → IsLog s
      → IsLog (read now encoding s max_bytes timeout_ms start turns).1
  unfolding read
  read-IsLog now encoding s max_bytes timeout_ms start turns i =
      let end_ : ReadEnd =
        read_loop (start + pos_part timeout_ms * 1000000) (bytes_wanted max_bytes) [] turns in
      either-IsLog s.port (read_ended now encoding s end_)
        (returned (inl (errorf (codes "serial debugger is not connected"))), s)
        (read_ended-IsLog now encoding s end_ i) i

  Step-IsLog : {s s' : SerialDebugService} → Step s s' → IsLog s → IsLog s'
  unfolding close_port
  Step-IsLog (opens s now params) i = open_port-IsLog now s params i
  Step-IsLog (closes s now) i =
      append_log-IsLog now (record s { port = false }) (codes "SYS") [] (codes "Disconnected")
        (record { short = i.short; since = i.since; numbered = i.numbered })
  Step-IsLog (sends s now text data_format encoding line_ending) i =
      send-IsLog now s text data_format encoding line_ending i
  Step-IsLog (reads s now encoding max_bytes timeout_ms start turns) i =
      read-IsLog now encoding s max_bytes timeout_ms start turns i

  -- Whatever a user does with the debugger and the port answers, the log holds at most 1000
  -- entries, numbered one by one without a gap up to the number that the next pull is told.
  pub Reach-IsLog : {s : SerialDebugService} → Reach s → IsLog s
  unfolding new_serial_debug_service
  Reach-IsLog fresh = record { short = omega arith; since = omega arith; numbered = omega arith }
  Reach-IsLog (after r step) = Step-IsLog step (Reach-IsLog r)
