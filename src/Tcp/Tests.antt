-- ===== src/Tcp/Tests.antt =====
-- Runs of the TCP driver (internal/driver/tcp.go) on a network that answers once.
use quantix_cnnector_go.Prelude.{◌≡◌, refl, true, false, none, some, [], ◌∷◌, inr}
use quantix_cnnector_go.Prelude.Text.{
  codes, eq_bytes, trim_space, to_lower, hex_decode_string, replace_all,
}
use quantix_cnnector_go.Value.{string, Fields, field, end, errorf}
use quantix_cnnector_go.Value.Toy.{toy}
use quantix_cnnector_go.Tcp.{Tcp, Socket, new_tcp_driver, connect, execute_action}
use quantix_cnnector_go.Tcp.Encode.{decode_escapes, to_bytes}
use quantix_cnnector_go.Tcp.Session.{IsConnection, fresh, after, connects, acts, Reach-IsConnection}

abbrev socket : Socket
socket = record {
  dial = λ address. none;
  write = λ b. some (errorf (codes "broken pipe"));
  read = λ n. inr (codes "12.5 kg");
  match_string = λ p s. some true;
  hex_error = λ s. errorf s;
  format = λ s. s;
}

abbrev params : Fields
params =
    field (codes "host") (string (codes "10.0.0.2"))
      (field (codes "port") (string (codes "23")) end)

abbrev up : Tcp
up = (connect toy params false socket new_tcp_driver).1

abbrev request : Fields
request = field (codes "data") (string (codes "W\\r\\n")) end

abbrev lost : Tcp
lost = (execute_action toy params false socket up (codes "tcp.send") request).1

encodes :
    (decode_escapes (codes "W\\r\\n\\x") ≡ codes "W\r\n\\x")
    × (to_bytes toy (λ s. errorf s) (string (codes "0a ff")) (codes " HEX") ≡ inr (10 ∷ 255 ∷ []))
unfolding decode_escapes to_bytes eq_bytes trim_space to_lower hex_decode_string replace_all
encodes = (refl, refl)

-- A network that refuses, after the connection was lost.
abbrev down : Socket
down = record socket { dial = λ address. some (codes "refused") }

abbrev refused : Tcp
refused = (connect toy params false down lost).1

Reach-IsConnection_example : IsConnection toy params false refused
Reach-IsConnection_example = Reach-IsConnection toy params false (
    after
      (after (after fresh (connects socket new_tcp_driver))
        (acts socket up (codes "tcp.send") request))
      (connects down lost))
