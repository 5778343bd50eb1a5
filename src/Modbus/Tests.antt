-- ===== src/Modbus/Tests.antt =====
-- Runs of the Modbus driver (internal/driver/modbus.go) over a line that opens and answers once.
use quantix_cnnector_go.Prelude.{
  ◌%◌, ◌/◌, ◌≡◌, refl, true, false, none, some, [], ◌∷◌, get_elem?, get_or, length, inl, inr, arith,
  if◌then◌else◌,
}
use quantix_cnnector_go.Prelude.Text.{codes, eq_bytes}
use quantix_cnnector_go.Value.{string, Fields, end, field, errorf}
use quantix_cnnector_go.Value.Toy.{toy}
use quantix_cnnector_go.Modbus.{
  Modbus, Line, new_modbus_driver, connect, execute_action, bytes_to_bits,
}
use quantix_cnnector_go.Modbus.Bits.{bit_of, bytes_to_bits-get_or}

abbrev line : Line
line = record {
  open_tcp = λ address. none;
  open_rtu = λ name. some (codes "no such port");
  request = λ action slave address n.
      if eq_bytes action (codes "modbus.read_coils")
      then inr (5 ∷ 1 ∷ [])
      else inl (errorf (codes "timeout"));
  format = λ s. s;
  random_grams = 0;
}

abbrev params : Fields
params = field (codes "host") (string (codes "10.0.0.2")) end

abbrev up : Modbus
up = (connect toy params true line new_modbus_driver).1

abbrev lost : Modbus
lost = (execute_action toy params true line up (codes "modbus.write_register") end).1

coils :
    bytes_to_bits (5 ∷ 1 ∷ []) 10
    ≡ true ∷ false ∷ true ∷ false ∷ false ∷ false ∷ false ∷ false ∷ true ∷ false ∷ []
unfolding bytes_to_bits
coils = refl

bytes_to_bits-get_or_example :
    (length (bytes_to_bits (5 ∷ 1 ∷ []) 10) ≡ 10)
    × (get_or (bytes_to_bits (5 ∷ 1 ∷ []) 10) 8 false
        ≡ bit_of (get_elem? (5 ∷ 1 ∷ []) (8 / 8)) (8 % 8))
bytes_to_bits-get_or_example = bytes_to_bits-get_or (5 ∷ 1 ∷ []) 10 8 (omega arith)
