-- ===== src/SerialDebug.antt =====
-- internal/service/serial_debug_service.go: the serial debugger, one port that a user opens, writes to
-- and reads from, with a log. The port itself is a parameter.
pub mod Payload
pub mod Log
pub mod Reading
mod Tests
use quantix_cnnector_go.Prelude.{
  ℕ, zero, suc, ◌+◌, ◌-◌, Bool, true, false, Option, none, some, List, [], ◌∷◌, ◌++◌, length, take,
  ltb, if◌then◌else◌, keep_last, ◌⊎◌, inl, inr,
}
use quantix_cnnector_go.Prelude.Int.{ℤ, pos, negsuc, ltb_ℤ, leb_ℤ}
use quantix_cnnector_go.Prelude.Text.{
  Bytes, codes, eq_bytes, trim_space, to_lower, to_upper, hex_encode, hex_spaced, show_int,
}
use quantix_cnnector_go.Value.{
  Value, bool, int, float64, string, object, Fields, end, field, Libs, Float, Error, errorf,
  wrap_errorf, value_or,
}
use quantix_cnnector_go.Value.Maps.{get, clone}
use quantix_cnnector_go.Value.Sprint.{sprint}
use quantix_cnnector_go.Config.Mappings.{is_empty}
use quantix_cnnector_go.SerialDebug.Payload.{
  Parity, StopBits, Numbers, parse_dbg_parity, parse_dbg_stop_bits, get_float, build_payload,
  value_or_nil_string,
}

-- An entry of the log, a map with these keys in the program.
pub record LogEntry : Type 0 where
  pub seq : ℕ
  pub direction : Bytes
  pub bytes : ℕ
  pub text : Bytes
  pub hex : Bytes
  pub timestamp : Bytes

-- `port` says whether a port is open.
pub record SerialDebugService : Type 0 where
  pub port : Bool
  pub settings : Fields
  pub last_err : Bytes
  pub logs : List LogEntry
  pub log_seq : ℕ

unfoldable pub new_serial_debug_service : SerialDebugService
new_serial_debug_service = record {
  port = false;
  settings = end;
  last_err = [];
  logs = [];
  log_seq = 0;
}

-- `now` is the time as RFC 3339 prints it.
unfoldable pub append_log : Bytes → SerialDebugService → Bytes → Bytes → Bytes → SerialDebugService
append_log now s direction payload text =
    let entry : LogEntry = record {
      seq = suc s.log_seq;
      direction = direction;
      bytes = length payload;
      text = text;
      hex = hex_spaced payload;
      timestamp = now;
    } in
    let logs = s.logs ++ entry ∷ [] in
    record s {
      log_seq = suc s.log_seq;
      logs = if ltb 1000 (length logs) then keep_last 1000 logs else logs;
    }

unfoldable pub status_unlocked : SerialDebugService → Fields
unfolding value_or_nil_string
status_unlocked s = field (codes "ok") (bool true) (
    field (codes "connected") (bool s.port) (
      field (codes "settings") (object (clone s.settings))
        (field (codes "last_error") (value_or_nil_string s.last_err) end)))

pub record Mode : Type 0 where
  pub baud_rate : ℤ
  pub data_bits : ℤ
  pub parity : Parity
  pub stop_bits : StopBits

-- serial.Open's error, and what writing to the port gives.
pub record SerialPort : Type 0 where
  pub open_error : Bytes → Mode → Option Error
  pub write : Bytes → Error ⊎ ℤ

module _ (lib : Libs) (numbers : Numbers) (line : SerialPort) (now : Bytes) where
  abbrev float_param : Fields → Bytes → ℕ → Float
  float_param params key fallback =
      get_float numbers lib (get params key) (lib.float_of_int (pos fallback))

  abbrev parity_text : Fields → Bytes
  parity_text params = sprint lib (value_or (get params (codes "parity")) (string (codes "N")))

  abbrev pub mode_of : Fields → Mode
  mode_of params = record {
    baud_rate = lib.int_of_float (float_param params (codes "baudrate") 9600);
    data_bits = lib.int_of_float (float_param params (codes "bytesize") 8);
    parity = parse_dbg_parity (parity_text params);
    stop_bits = parse_dbg_stop_bits numbers (float_param params (codes "stopbits") 1);
  }

  abbrev pub settings_of : Bytes → Fields → Fields
  settings_of port_name params = field (codes "port") (string port_name) (
      field (codes "baudrate") (int (mode_of params).baud_rate) (
        field (codes "bytesize") (int (mode_of params).data_bits) (
          field (codes "parity") (string (parity_text params)) (
            field (codes "stopbits") (float64 (float_param params (codes "stopbits") 1)) (
              field (codes "timeout_ms") (float64 (float_param params (codes "timeout_ms") 300))
                end)))))

  abbrev pub connected_text : Bytes → Fields → Bytes
  connected_text port_name params =
      codes "Connected: "
      ++ port_name
      ++ codes " "
      ++ show_int (mode_of params).baud_rate
      ++ codes "/"
      ++ show_int (mode_of params).data_bits
      ++ codes "/"
      ++ parity_text params
      ++ codes "/"
      ++ lib.show_float (float_param params (codes "stopbits") 1)

  -- What follows an attempt to open the port.
  unfoldable pub opened :
      SerialDebugService → Bytes → Fields → Option Error → (Error ⊎ Fields) × SerialDebugService
  unfolding append_log status_unlocked
  opened s port_name params (some e) = (
    inl (wrap_errorf (codes "open failed: " ++ e.text)),
    append_log now (record s { last_err = e.text }) (codes "ERR") []
        (codes "Open failed: " ++ e.text),
  )
  opened s port_name params none =
      let s' =
        append_log now
          (record s { port = true; settings = settings_of port_name params; last_err = [] })
          (codes "SYS") [] (connected_text port_name params) in
      (inr (status_unlocked s'), s')

  unfoldable pub open_port : SerialDebugService → Fields → (Error ⊎ Fields) × SerialDebugService
  unfolding opened
  open_port s params =
      let closed : SerialDebugService = record s { port = false } in
      let port_name = trim_space (sprint lib (get params (codes "port"))) in
      if is_empty port_name
      then (inl (errorf (codes "port is required")), closed)
      else opened closed port_name params (line.open_error port_name (mode_of params))

  unfoldable pub close_port : SerialDebugService → Fields × SerialDebugService
  unfolding append_log status_unlocked
  close_port s =
      let s' = append_log now (record s { port = false }) (codes "SYS") [] (codes "Disconnected") in
      (status_unlocked s', s')

  abbrev pub tx_text : Bytes → Bytes → Bytes
  tx_text data_format payload =
      if eq_bytes (to_lower data_format) (codes "hex")
      then to_upper (hex_encode payload)
      else payload

  abbrev pub written :
      SerialDebugService → Bytes → Bytes → Bytes → Error ⊎ ℤ → (Error ⊎ Fields) × SerialDebugService
  written s data_format encoding payload (inl e) = (inl e, record s { last_err = e.text })
  written s data_format encoding payload (inr n) = (
    inr (
        field (codes "ok") (bool true) (
          field (codes "bytes_sent") (int n) (
            field (codes "payload_hex") (string (hex_spaced payload)) (
              field (codes "timestamp") (string now)
                (field (codes "encoding") (string encoding) end))))),
    append_log now s (codes "TX") payload (tx_text data_format payload),
  )

  abbrev pub built :
      SerialDebugService → Bytes → Bytes → Error ⊎ Bytes → (Error ⊎ Fields) × SerialDebugService
  built s data_format encoding (inl e) = (inl e, s)
  built s data_format encoding (inr payload) =
      written s data_format encoding payload (line.write payload)

  unfoldable pub send :
      SerialDebugService → Bytes → Bytes → Bytes → Bytes → (Error ⊎ Fields) × SerialDebugService
  unfolding append_log build_payload
  send s text data_format encoding line_ending =
      if s.port
      then built s data_format encoding (build_payload numbers text data_format line_ending)
      else (inl (errorf (codes "serial debugger is not connected")), s)
