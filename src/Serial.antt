-- ===== src/Serial.antt =====
-- internal/driver/serial.go: the serial driver. Opening a port, writing to it, the clock and what is read
-- are arguments. The read timeout of a port that is open shows only in what is read.
pub mod Receive
pub mod Received
mod Tests
pub mod Receipts
use quantix_cnnector_go.Prelude.{
  ℕ, ◌==◌, Bool, true, false, Option, none, some, [], ◌++◌, if◌then◌else◌, ◌⊎◌, inl, inr, List,
}
use quantix_cnnector_go.Prelude.Int.{ℤ, pos, negsuc}
use quantix_cnnector_go.Prelude.Text.{Bytes, codes, eq_bytes}
use quantix_cnnector_go.Value.{
  Value, int, bytes, object, Fields, end, field, Libs, Result, ok, err, Error, errorf,
}
use quantix_cnnector_go.Value.Maps.{get}
use quantix_cnnector_go.Config.Mappings.{is_empty}
use quantix_cnnector_go.Modbus.Params.{as_string, as_int}
use quantix_cnnector_go.Tcp.Encode.{to_bytes, decode_escapes}
use quantix_cnnector_go.Serial.Receive.{
  Turn, ReadEnd, complete, failed, waiting, receive_loop, cut, is_late,
}

-- `port` says whether there is an open port.
pub record Serial : Type 0 where
  pub port : Bool
  pub connected : Bool
  pub last_err : Bytes

unfoldable pub new_serial_driver : Serial
new_serial_driver = record { port = false; connected = false; last_err = [] }

pub data Parity : Type 0 where
  no_parity even_parity odd_parity : Parity

pub data StopBits : Type 0 where
  one_stop_bit two_stop_bits : StopBits

pub record Mode : Type 0 where
  pub baud_rate : ℤ
  pub data_bits : ℤ
  pub parity : Parity
  pub stop_bits : StopBits

unfoldable pub parse_parity : Bytes → Parity
parse_parity raw =
    if eq_bytes raw (codes "E")
    then even_parity
    else if eq_bytes raw (codes "O")
    then odd_parity
    else no_parity

unfoldable pub parse_stop_bits : ℤ → StopBits
parse_stop_bits (pos n) = if n == 2 then two_stop_bits else one_stop_bit
parse_stop_bits (negsuc n) = one_stop_bit

unfoldable pub disconnect : Serial → Serial
disconnect d = record d { port = false; connected = false }

unfoldable pub lose : Serial → Bytes → Serial
lose d text = record { port = false; connected = false; last_err = text }

-- What the port does in one action: what Write gives for these bytes, the clock in nanoseconds when it
-- begins, the deadline of its context, and the turns of its loop.
pub record Port : Type 0 where
  pub write : Bytes → Error ⊎ ℤ
  pub start : ℕ
  pub ctx_deadline : Option ℕ
  pub turns : List Turn

module _ (lib : Libs) (params : Fields) (simulates : Bool) where
  unfoldable pub mode_of : Mode
  unfolding parse_parity parse_stop_bits
  mode_of = record {
    baud_rate = as_int lib params (codes "baudrate") (pos 9600);
    data_bits = as_int lib params (codes "bytesize") (pos 8);
    parity = parse_parity (as_string lib params (codes "parity") (codes "N"));
    stop_bits = parse_stop_bits (as_int lib params (codes "stopbits") (pos 1));
  }

  abbrev pub not_open : Bytes → Bool × Serial
  not_open text = (simulates, record { port = false; connected = simulates; last_err = text })

  abbrev pub opened : Option Bytes → Bool × Serial
  opened (some e) = not_open (codes "serial open failed: " ++ e)
  opened none = (true, record { port = true; connected = true; last_err = [] })

  -- Connect, where `opens` gives the error of a port that does not open; nothing of the old state stays.
  unfoldable pub connect : (Bytes → Mode → Option Bytes) → Serial → Bool × Serial
  unfolding mode_of
  connect opens d =
      let port_name = as_string lib params (codes "port") [] in
      if is_empty port_name
      then not_open (codes "serial port is required")
      else opened (opens port_name mode_of)

-- An action gives nothing where its loop has not ended when the turns run out.
abbrev pub Answer : Type 0
Answer = Option (Result Value)

abbrev pub wrote : Serial → Error ⊎ ℤ → Answer × Serial
wrote d (inl e) = (some (err e), lose d (codes "serial send failed: " ++ e.text))
wrote d (inr n) = (some (ok (object (field (codes "bytes_sent") (int n) end))), d)

module _ (lib : Libs) (hex_error : Bytes → Error) (io : Port) where
  abbrev pub encoded : Serial → Error ⊎ Bytes → Answer × Serial
  encoded d (inl e) = (some (err e), d)
  encoded d (inr data_bytes) =
      if d.port
      then wrote d (io.write data_bytes)
      else (some (err (errorf (codes "serial send failed: serial port is not connected"))), d)

  unfoldable pub send : Serial → Fields → Answer × Serial
  unfolding lose
  send d ps = encoded d (
      to_bytes lib hex_error (get ps (codes "data"))
        (as_string lib ps (codes "encoding") (codes "ascii")))

  abbrev pub size_of : Fields → ℤ
  size_of ps = as_int lib ps (codes "size") (as_int lib ps (codes "max_bytes") (pos 1024))

  abbrev pub delimiter_of : Fields → Bytes
  delimiter_of ps = decode_escapes (as_string lib ps (codes "delimiter") [])

  abbrev pub payload_of : Bytes → Value
  payload_of b = object (field (codes "payload") (bytes b) end)

  abbrev pub did_read : Serial → Bytes → ReadEnd → Answer × Serial
  did_read d delimiter (complete buf) = (some (ok (payload_of (cut delimiter buf))), d)
  did_read d delimiter (failed e) =
      (some (err e), lose d (codes "serial receive failed: " ++ e.text))
  did_read d delimiter waiting = (none, d)

  -- The turns of the loop of a receive.
  abbrev pub read_end : Fields → ReadEnd
  read_end ps =
      let timeout_ms = as_int lib ps (codes "timeout") (pos 1000) in
      receive_loop (size_of ps) (delimiter_of ps) (is_late io.start timeout_ms io.ctx_deadline) []
        io.turns

  unfoldable pub receive : Serial → Fields → Answer × Serial
  unfolding lose receive_loop cut decode_escapes
  receive d ps =
      if d.port
      then did_read d (delimiter_of ps) (read_end ps)
      else (some (err (errorf (codes "serial receive failed: serial port is not connected"))), d)

  unfoldable pub execute_action : Serial → Bytes → Fields → Answer × Serial
  unfolding send receive
  execute_action d action ps =
      if eq_bytes action (codes "serial.send")
      then send d ps
      else if eq_bytes action (codes "serial.receive")
      then receive d ps
      else (some (err (errorf (codes "unsupported action for SerialDriver: " ++ action))), d)
