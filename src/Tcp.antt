-- ===== src/Tcp.antt =====
-- internal/driver/tcp.go: the TCP driver. Dialing, writing and reading are parameters.
pub mod Encode
pub mod Session
mod Tests
use quantix_cnnector_go.Prelude.{
  ℕ, suc, ◌≡◌, Bool, true, false, ◌&&◌, ◌||◌, not, Option, none, some, [], ◌++◌, length, ltb,
  if◌then◌else◌, ◌⊎◌, inl, inr,
}
use quantix_cnnector_go.Prelude.Int.{ℤ, pos, leb_ℤ, ltb_ℤ, pos_part}
use quantix_cnnector_go.Prelude.Text.{Bytes, codes, eq_bytes, show_int, hex_spaced}
use quantix_cnnector_go.Value.{
  Value, bool, int, string, bytes, object, Fields, end, field, Libs, Result, ok, err, Error, errorf,
}
use quantix_cnnector_go.Value.Maps.{get}
use quantix_cnnector_go.Config.Mappings.{is_empty}
use quantix_cnnector_go.Driver.{Driver}
use quantix_cnnector_go.Modbus.Params.{as_string, as_int, as_bool}
use quantix_cnnector_go.Tcp.Encode.{to_bytes}

-- `conn` says whether there is a connection.
pub record Tcp : Type 0 where
  pub conn : Bool
  pub connected : Bool
  pub last_err : Bytes

unfoldable pub new_tcp_driver : Tcp
new_tcp_driver = record { conn = false; connected = false; last_err = [] }

-- net.DialTimeout's error, those of Write and Read with what a read of at most n bytes gives;
-- regexp.Compile with MatchString, none for a pattern that does not compile; the error of
-- encoding/hex; fmt.Errorf without arguments.
pub record Socket : Type 0 where
  pub dial : Bytes → Option Bytes
  pub write : Bytes → Option Error
  pub read : ℕ → Error ⊎ Bytes
  pub match_string : Bytes → Bytes → Option Bool
  pub hex_error : Bytes → Error
  pub format : Bytes → Bytes

-- max(1, n), the size of a buffer.
abbrev pub buffer_size : ℤ → ℕ
buffer_size n = if ltb_ℤ n (pos 1) then 1 else pos_part n

unfoldable pub lose : Tcp → Bytes → Tcp
lose d text = record { conn = false; connected = false; last_err = text }

unfoldable pub disconnect : Tcp → Tcp
disconnect d = record d { conn = false; connected = false }

unfoldable pub last_err_or : Tcp → Bytes → Bytes
last_err_or d fallback = if is_empty d.last_err then fallback else d.last_err

module _ (lib : Libs) (params : Fields) (simulates : Bool) (socket : Socket) where
  abbrev pub not_connected : Bytes → Bool × Tcp
  not_connected text = (simulates, record { conn = false; connected = simulates; last_err = text })

  abbrev pub dialed : Option Bytes → Bool × Tcp
  dialed (some e) = not_connected (codes "tcp connect failed: " ++ e)
  dialed none = (true, record { conn = true; connected = true; last_err = [] })

  -- Connect; nothing of the old state stays.
  unfoldable pub connect : Tcp → Bool × Tcp
  connect d =
      let host = as_string lib params (codes "host") [] in
      let port = as_int lib params (codes "port") (pos 0) in
      if is_empty host || leb_ℤ port (pos 0)
      then not_connected (codes "tcp requires host and port")
      else dialed (socket.dial (host ++ codes ":" ++ show_int port))

  -- The acknowledgment of a send: whether it is one, its bytes and its text.
  pub record Ack : Type 0 where
    pub ack_ok : Bool
    pub ack_bytes : Bytes

  abbrev no_match : Option Bool → Bool
  no_match none = false
  no_match (some b) = b

  abbrev pub ack_of : Bytes → Error ⊎ Bytes → Ack
  ack_of pattern (inl e) = record { ack_ok = false; ack_bytes = [] }
  ack_of pattern (inr b) =
      let matches = if is_empty pattern then true else no_match (socket.match_string pattern b) in
      if is_empty b
      then record { ack_ok = false; ack_bytes = [] }
      else record { ack_ok = matches; ack_bytes = b }

  abbrev pub sent : Bytes → Ack → Value
  sent payload a = object (
      field (codes "bytes_sent") (int (pos (length payload))) (
        field (codes "ack_ok") (bool a.ack_ok) (
          field (codes "ack_payload") (string (hex_spaced a.ack_bytes))
            (field (codes "ack_text") (string a.ack_bytes) end))))

  abbrev pub ack_read : Tcp → Fields → Ack
  ack_read d ps =
      let size = buffer_size (as_int lib ps (codes "ack_size") (pos 128)) in
      let none_yet : Ack = record { ack_ok = false; ack_bytes = [] } in
      if d.conn
      then ack_of (as_string lib ps (codes "ack_pattern") []) (socket.read size)
      else none_yet

  -- What follows the write: the acknowledgment that the parameters ask for.
  unfoldable pub acknowledge : Tcp → Fields → Bytes → Result Value × Tcp
  acknowledge d ps payload =
      let ack = ack_read d ps in
      let unasked : Ack = record { ack_ok = true; ack_bytes = [] } in
      if as_bool ps (codes "wait_ack") false
      then (if not d.conn && not simulates
          then (
            err (errorf (socket.format (last_err_or d (codes "tcp reader is not connected")))),
            d,
          )
          else if as_bool ps (codes "ack_required") false && not ack.ack_ok
          then (err (errorf (codes "tcp send ack timeout or pattern mismatch")), d)
          else (ok (sent payload ack), d))
      else (ok (sent payload unasked), d)

  abbrev pub wrote : Tcp → Fields → Bytes → Option Error → Result Value × Tcp
  wrote d ps payload (some e) = (err e, lose d (codes "tcp send failed: " ++ e.text))
  wrote d ps payload none = acknowledge d ps payload

  abbrev pub encoded : Tcp → Fields → Error ⊎ Bytes → Result Value × Tcp
  encoded d ps (inl e) = (err e, d)
  encoded d ps (inr payload) =
      if d.conn
      then wrote d ps payload (socket.write payload)
      else if simulates
      then acknowledge d ps payload
      else (err (errorf (socket.format (last_err_or d (codes "tcp writer is not connected")))), d)

  unfoldable pub send : Tcp → Fields → Result Value × Tcp
  unfolding acknowledge lose
  send d ps = encoded d ps (
      to_bytes lib socket.hex_error (get ps (codes "data"))
        (as_string lib ps (codes "encoding") (codes "ascii")))

  abbrev payload_of : Bytes → Value
  payload_of b = object (field (codes "payload") (bytes b) end)

  abbrev pub did_read : Tcp → Error ⊎ Bytes → Result Value × Tcp
  did_read d (inl e) = (err e, lose d (codes "tcp receive failed: " ++ e.text))
  did_read d (inr b) = (ok (payload_of b), d)

  unfoldable pub receive : Tcp → Fields → Result Value × Tcp
  unfolding lose
  receive d ps =
      if d.conn
      then did_read d (socket.read (buffer_size (as_int lib ps (codes "size") (pos 64))))
      else if simulates
      then (ok (payload_of (codes "0.0")), d)
      else (err (errorf (socket.format (last_err_or d (codes "tcp reader is not connected")))), d)

  unfoldable pub execute_action : Tcp → Bytes → Fields → Result Value × Tcp
  unfolding send receive
  execute_action d action ps =
      if eq_bytes action (codes "tcp.send")
      then send d ps
      else if eq_bytes action (codes "tcp.receive")
      then receive d ps
      else (err (errorf (codes "unsupported action for TCPDriver: " ++ action)), d)

  -- The driver as the executor and the manager see it.
  abbrev pub tcp_driver : Driver Tcp
  tcp_driver = record {
    connect = connect;
    disconnect = disconnect;
    is_connected = λ d. d.connected;
    execute_action = execute_action;
    last_error = λ d. d.last_err;
  }
