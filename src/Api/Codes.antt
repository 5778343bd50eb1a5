-- ===== src/Api/Codes.antt =====
-- internal/api/dto.go and internal/api/devices.go: what a request may hold (validateDeviceCode,
-- validateDeviceCategory, parsePort, defaultPortForProtocol).
use quantix_cnnector_go.Prelude.{
  Bool, true, false, Bool-cases, ◌&&◌, Option, none, some, [], ◌∷◌, if◌then◌else◌, ◌⊎◌, inl, inr,
}
use quantix_cnnector_go.Prelude.Int.{ℤ, pos, leb_ℤ, ltb_ℤ, int_of_bits}
use quantix_cnnector_go.Prelude.Text.{Bytes, codes, eq_bytes, trim_space, to_upper, to_lower}
use quantix_cnnector_go.Value.{
  Value, null, int, int32, int64, uint, uint32, uint64, float32, float64, number, string, Libs,
  Float, Error, errorf,
}
use quantix_cnnector_go.Config.Mappings.{is_empty}
use quantix_cnnector_go.Store.{
  match_code, is_category, bad_category, normalize_device_code, normalize_device_category,
}

-- errf
abbrev simple_err : Bytes → Error
simple_err text = record { go_type = codes "api.simpleErr"; text = text }

unfoldable pub validate_device_code : Bytes → Option Error
validate_device_code given =
    if match_code (to_upper (trim_space given))
    then none
    else some (simple_err (codes "device_code must match ^[A-Z0-9][A-Z0-9_-]{0,63}$"))

unfoldable pub validate_device_category : Bytes → Option Error
validate_device_category given =
    let c = to_lower (trim_space given) in
    if is_empty c then none else if is_category c then none else some (simple_err bad_category.text)

-- The handlers normalize what they have validated, and ignore the error of that: both accept the same.
abbrev pub Agrees : Option Error → Error ⊎ Bytes → Type 0
Agrees none (inr s) = Unit {0}
Agrees (some e) (inl f) = Unit {0}
Agrees none (inl f) = ⊥
Agrees (some e) (inr s) = ⊥

pub validate_device_code-Agrees :
    (value : Bytes) → Agrees (validate_device_code value) (normalize_device_code value)
unfolding validate_device_code normalize_device_code match_code
validate_device_code-Agrees value = cases (to_upper (trim_space value))
  where
    cases :
        (c : Bytes)
        → Agrees
            (if match_code c
              then none
              else some (simple_err (codes "device_code must match ^[A-Z0-9][A-Z0-9_-]{0,63}$")))
            (if is_empty c
              then inl (errorf (codes "device_code is required"))
              else if match_code c
              then inr c
              else inl (errorf (codes "device_code must match ^[A-Z0-9][A-Z0-9_-]{0,63}$")))
    cases [] = tt
    cases (x ∷ s) = elim (Bool-cases (match_code (x ∷ s))) [ inl e ↦ rw e tt | inr e ↦ rw e tt ]

pub validate_device_category-Agrees :
    (value : Bytes) → Agrees (validate_device_category value) (normalize_device_category value)
unfolding validate_device_category normalize_device_category
validate_device_category-Agrees value =
    let c : Bytes = to_lower (trim_space value) in
    elim (Bool-cases (is_empty c)) [
      | inl e ↦ rw e tt
      | inr e ↦ elim (Bool-cases (is_category c)) [ inl k ↦ rw (e, k) tt | inr k ↦ rw (e, k) tt ]
    ]

-- Validating and normalizing accept the same codes and the same categories, so the error of
-- normalizing that the handlers ignore after validating never occurs.
pub validate-normalize :
    (value : Bytes)
    → Agrees (validate_device_code value) (normalize_device_code value)
      × Agrees (validate_device_category value) (normalize_device_category value)
validate-normalize value =
    (validate_device_code-Agrees value, validate_device_category-Agrees value)

unfoldable pub default_port_for_protocol : Bytes → ℤ
default_port_for_protocol protocol_type =
    if eq_bytes (to_lower (trim_space protocol_type)) (codes "mqtt") then pos 1883 else pos 502

abbrev pub port_of : ℤ → ℤ × Bool
port_of n = (n, ltb_ℤ (pos 0) n && leb_ℤ n (pos 65535))

-- An integer, else a float, else nothing.
abbrev pub port_from : Libs → Option ℤ → Option Float → ℤ × Bool
port_from lib (some n) f = port_of n
port_from lib none (some f) = port_of (lib.int_of_float f)
port_from lib none none = (pos 0, false)

unfoldable pub parse_port : Libs → Value → ℤ → ℤ × Bool
parse_port lib null fallback = (fallback, true)
parse_port lib (int n) fallback = port_of n
parse_port lib (int32 n) fallback = port_of n
parse_port lib (int64 n) fallback = port_of n
parse_port lib (uint n) fallback = port_of (int_of_bits n)
parse_port lib (uint32 n) fallback = port_of (int_of_bits n)
parse_port lib (uint64 n) fallback = port_of (int_of_bits n)
parse_port lib (float32 f) fallback = port_of (lib.int_of_float (lib.widen f))
parse_port lib (float64 f) fallback = port_of (lib.int_of_float f)
parse_port lib (number s) fallback = port_from lib (lib.atoi s) (lib.parse_float s)
parse_port lib (string t) fallback =
    let s = trim_space t in
    if is_empty s then (fallback, true) else port_from lib (lib.atoi s) (lib.parse_float s)
parse_port lib v fallback = (pos 0, false)
