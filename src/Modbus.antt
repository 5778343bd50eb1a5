-- ===== src/Modbus.antt =====
-- internal/driver/modbus.go: the Modbus driver. Opening a line and what a device answers are
-- parameters.
pub mod Params
pub mod Bits
pub mod Session
mod Tests
use quantix_cnnector_go.Prelude.{
  ℕ, suc, zero, ◌+◌, ◌-◌, ◌*◌, ◌/◌, ◌%◌, ◌^◌, ◌≡◌, Bool, true, false, ◌&&◌, ◌||◌, not, Option, none,
  some, List, [], ◌∷◌, ◌++◌, replicate, ◌==◌, ◌⊎◌, inl, inr, if◌then◌else◌,
}
use quantix_cnnector_go.Prelude.Int.{ℤ, pos, bits_of_int, pos_part}
use quantix_cnnector_go.Prelude.Text.{Bytes, codes, eq_bytes, has_prefix, show_int}
use quantix_cnnector_go.Value.{
  Value, bool, ints, bools, object, Fields, end, field, Libs, Result, ok, err, Error, errorf,
}
use quantix_cnnector_go.Modbus.Params.{as_string, as_int, as_bool}

-- `handler` and `rtu` hold the slave id of an open line; `client` says that there is a client.
pub record Modbus : Type 0 where
  pub handler : Option ℕ
  pub rtu : Option ℕ
  pub client : Bool
  pub connected : Bool
  pub last_err : Bytes

unfoldable pub new_modbus_driver : Modbus
new_modbus_driver = record {
  handler = none;
  rtu = none;
  client = false;
  connected = false;
  last_err = [];
}

unfoldable pub close_unlocked : Modbus → Modbus
close_unlocked d = record d { handler = none; rtu = none; client = false }

unfoldable pub mark_disconnected : Modbus → Error → Modbus
unfolding close_unlocked
mark_disconnected d e = record (close_unlocked d) { connected = false; last_err = e.text }

unfoldable pub disconnect : Modbus → Modbus
unfolding close_unlocked
disconnect d = record (close_unlocked d) { connected = false }

-- bytesToU16
unfoldable pub bytes_to_u16 : Bytes → List ℤ
bytes_to_u16 [] = []
bytes_to_u16 (a ∷ []) = []
bytes_to_u16 (a ∷ b ∷ rest) = pos (a * 256 + b) ∷ bytes_to_u16 rest

-- The bits i, i + 1, ... of a byte, then those of the next; a byte that is missing reads as 0.
unfoldable pub bits_from : ℕ → ℕ → Bytes → List Bool
bits_from i zero bs = []
bits_from i (suc n) [] = false ∷ bits_from 0 n []
bits_from i (suc n) (b ∷ bs) =
    let here = bits_from (suc i) n (b ∷ bs) in
    let there = bits_from 0 n bs in not (b / 2 ^ i % 2 == 0) ∷ (if i == 7 then there else here)

-- bytesToBits
unfoldable pub bytes_to_bits : Bytes → ℕ → List Bool
unfolding bits_from
bytes_to_bits bs count = bits_from 0 count bs

abbrev uint16 : ℤ → ℕ
uint16 n = bits_of_int n % 2 ^ 16

-- What a line does: `open_tcp` and `open_rtu` give the error of a line that does not open, and `request`
-- the answer to an action with its slave, address and value or count; `format` is fmt.Errorf without
-- arguments.
pub record Line : Type 0 where
  pub open_tcp : Bytes → Option Bytes
  pub open_rtu : Bytes → Option Bytes
  pub request : Bytes → ℕ → ℕ → ℕ → Error ⊎ Bytes
  pub format : Bytes → Bytes
  -- int(rand.Float64() * 30.0 * 1000)
  pub random_grams : ℕ

-- What Connect does first, and what it does with a line that is open.
unfoldable pub cleared : Modbus → Modbus
unfolding close_unlocked
cleared d = record (close_unlocked d) { last_err = [] }

abbrev pub with_tcp : Modbus → Modbus
with_tcp d = record d { handler = some 0; client = true; connected = true }

abbrev pub with_rtu : Modbus → Modbus
with_rtu d = record d { rtu = some 0; client = true; connected = true }

module _ (lib : Libs) (params : Fields) (simulates : Bool) (line : Line) where
  -- What follows an attempt to open a line; `opened` is the driver with it.
  abbrev pub attempt : Modbus → Modbus → Bytes → Option Bytes → Bool × Modbus
  attempt d opened what none = (true, opened)
  attempt d opened what (some e) =
      (simulates, record d { client = false; connected = simulates; last_err = what ++ e })

  unfoldable pub connect : Modbus → Bool × Modbus
  connect d =
      let d' = cleared d in
      let host = as_string lib params (codes "host") [] in
      let port = as_int lib params (codes "port") (pos 502) in
      let port_name = as_string lib params (codes "port") [] in
      let tcp =
        attempt d' (with_tcp d') (codes "modbus tcp connect failed: ")
          (line.open_tcp (host ++ codes ":" ++ show_int port)) in
      let serial =
        attempt d' (with_rtu d') (codes "modbus rtu connect failed: ") (line.open_rtu port_name) in
      let neither : Bool × Modbus = (
        simulates,
        record d' {
          connected = simulates || d'.connected;
          last_err = codes "modbus requires host:port or serial port";
        },
      ) in
      if eq_bytes host [] then (if eq_bytes port_name [] then neither else serial) else tcp

  unfoldable pub simulate : Bytes → Fields → Value
  simulate action ps =
      let count = pos_part (as_int lib ps (codes "count") (pos 2)) - 2 in
      if has_prefix (codes "modbus.read") action
      then object (
          field (codes "registers")
            (ints (
              pos (line.random_grams / 2 ^ 16 % 2 ^ 16)
              ∷ pos (line.random_grams % 2 ^ 16)
              ∷ replicate count (pos 0)))
            (field (codes "coils") (bools (true ∷ false ∷ true ∷ false ∷ [])) end))
      else if has_prefix (codes "modbus.write") action
      then object (field (codes "ok") (bool true) end)
      else object end

  abbrev pub answered : Modbus → (Bytes → Value) → Error ⊎ Bytes → Result Value × Modbus
  answered d reply (inl e) = (err e, mark_disconnected d e)
  answered d reply (inr bs) = (ok (reply bs), d)

  abbrev pub slave : ℕ → Option ℕ → Option ℕ
  slave id none = none
  slave id (some old) = some id

  -- What is made of the answer to an action, and the count or value that it asks with.
  unfoldable pub request_of : Bytes → Fields → Option ((Bytes → Value) × ℕ)
  request_of action ps =
      let count = uint16 (as_int lib ps (codes "count") (pos 2)) in
      let value = uint16 (as_int lib ps (codes "value") (pos 0)) in
      let coil = if as_bool ps (codes "value") false then 65280 else 0 in
      let registers =
        λ (bs : Bytes). object (field (codes "registers") (ints (bytes_to_u16 bs)) end) in
      let coils =
        λ (bs : Bytes). object (field (codes "coils") (bools (bytes_to_bits bs count)) end) in
      let written = λ (bs : Bytes). object (field (codes "ok") (bool true) end) in
      if eq_bytes action (codes "modbus.read_input_registers")
        || eq_bytes action (codes "modbus.read_holding_registers")
      then some (registers, count)
      else if eq_bytes action (codes "modbus.read_coils")
          || eq_bytes action (codes "modbus.read_discrete_inputs")
      then some (coils, count)
      else if eq_bytes action (codes "modbus.write_register")
      then some (written, value)
      else if eq_bytes action (codes "modbus.write_coil")
      then some (written, coil)
      else none

  unfoldable pub perform : Modbus → Bytes → Fields → Result Value × Modbus
  perform d action ps =
      let id = bits_of_int (as_int lib ps (codes "slave_id") (pos 1)) % 2 ^ 8 in
      let address = uint16 (as_int lib ps (codes "address") (pos 0)) in
      let d' = record d { handler = slave id d.handler; rtu = slave id d.rtu } in
      elim (request_of action ps) [
        | none ↦ (err (errorf (codes "unsupported action for ModbusDriver: " ++ action)), d')
        | some (reply, n) ↦ answered d' reply (line.request action id address n)
      ]

  abbrev last_err_or : Modbus → Bytes → Bytes
  last_err_or d fallback = if eq_bytes d.last_err [] then fallback else d.last_err

  unfoldable pub execute_action : Modbus → Bytes → Fields → Result Value × Modbus
  execute_action d action ps =
      if d.client
      then perform d action ps
      else if d.connected
      then (ok (simulate action ps), d)
      else (err (errorf (line.format (last_err_or d (codes "modbus client is not connected")))), d)
