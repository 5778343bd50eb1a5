-- ===== src/Executor/Convert.antt =====
-- internal/service/protocol_executor.go: conversions of dynamic values (anyToFloat, extractPayload,
-- transformInputString, hexDecode) and slices of texts.
use quantix_cnnector_go.Prelude.{
  ℕ, ◌-◌, ◌%◌, ◌≡◌, Bool, ◌&&◌, Option, none, some, [], ◌∷◌, arith, ltb, leb, ◌==◌, if◌then◌else◌,
  length, take, drop,
}
use quantix_cnnector_go.Prelude.Int.{ℤ, pos, negsuc, ltb_ℤ}
use quantix_cnnector_go.Prelude.Text.{
  Bytes, codes, eq_bytes, trim_space, to_lower, has_prefix, replace_all, hex_decode_string,
}
use quantix_cnnector_go.Value.{
  Value, null, int, int64, uint, float32, float64, string, bytes, object, Float, Libs, Result, ok,
  err, panic, errorf, value_or,
}
use quantix_cnnector_go.Value.Maps.{get?, get}
use quantix_cnnector_go.Value.Sprint.{sprint}

-- s[start:end]: out of order or out of range is a run-time panic.
unfoldable pub slice : Bytes → ℤ → ℤ → Result Bytes
slice s (pos a) (pos b) =
    if leb a b && leb b (length s) then ok (take (b - a) (drop a s)) else panic
slice s _ _ = panic

-- strings.EqualFold
unfoldable pub equal_fold : Bytes → Bytes → Bool
equal_fold a b = eq_bytes (to_lower a) (to_lower b)

abbrev pub cut_prefix : Bytes → Bytes → Bytes
cut_prefix p s = if has_prefix p s then drop (length p) s else s

abbrev pub or_hex_error : Option Bytes → Result Bytes
or_hex_error none = err (errorf (codes "encoding/hex: invalid input"))
or_hex_error (some s) = ok s

abbrev pad_even : Bytes → Bytes
pad_even s = if length s % 2 == 0 then s else b'0' ∷ s

unfoldable pub hex_decode : Bytes → Result Bytes
hex_decode clean =
    if eq_bytes clean []
    then ok []
    else or_hex_error
        (hex_decode_string (pad_even (cut_prefix (codes "0x") (to_lower (trim_space clean)))))

abbrev or_text : Bytes → Option Bytes → Bytes
or_text s none = s
or_text s (some t) = t

-- The text as hexadecimal if it is asked for and possible, and its bytes otherwise.
abbrev decoded : Bytes → Bytes → Bytes
decoded encoding s =
    if equal_fold (trim_space encoding) (codes "hex")
    then or_text s (hex_decode_string (replace_all (trim_space s) (codes " ") []))
    else s

module _ (lib : Libs) where
  unfoldable pub any_to_float_strict : Value → Option Float
  any_to_float_strict (float64 f) = some f
  any_to_float_strict (float32 f) = some (lib.widen f)
  any_to_float_strict (int n) = some (lib.float_of_int n)
  any_to_float_strict (int64 n) = some (lib.float_of_int n)
  any_to_float_strict (uint n) = some (lib.float_of_int (pos n))
  any_to_float_strict (string s) = lib.parse_float (trim_space s)
  any_to_float_strict _ = none

  abbrev or_zero : Option Float → Float
  or_zero none = 0
  or_zero (some f) = f

  unfoldable pub any_to_float : Value → Float
  unfolding any_to_float_strict
  any_to_float v = or_zero (any_to_float_strict v)

  -- int(anyToFloat(execValueOr(v, fallback)))
  unfoldable pub int_or : Value → Value → ℤ
  unfolding any_to_float
  int_or v fallback = lib.int_of_float (any_to_float (value_or v fallback))

  abbrev inner_text : Value → Bytes
  inner_text (bytes b) = b
  inner_text v = sprint lib v

  abbrev payload_text : Option Value → Value → Bytes
  payload_text (some p) v = inner_text p
  payload_text none v = sprint lib v

  unfoldable pub transform_input_string : Value → Bytes
  transform_input_string null = []
  transform_input_string (string s) = s
  transform_input_string (bytes b) = b
  transform_input_string (object m) = payload_text (get? m (codes "payload")) (object m)
  transform_input_string v = sprint lib v

  abbrev present_text : Value → Bytes
  present_text null = []
  present_text v = inner_text v

  unfoldable pub extract_payload : Value → Bytes
  extract_payload null = []
  extract_payload (bytes b) = b
  extract_payload (object m) = present_text (get m (codes "payload"))
  extract_payload v = sprint lib v

  abbrev raw_of : Bytes → Value → Bytes
  raw_of encoding null = []
  raw_of encoding (bytes b) = b
  raw_of encoding (string s) = decoded encoding s
  raw_of encoding v = sprint lib v

  unfoldable pub extract_payload_raw : Value → Bytes → Bytes
  extract_payload_raw (bytes b) encoding = b
  extract_payload_raw (object m) encoding = raw_of encoding (get m (codes "payload"))
  extract_payload_raw (string s) encoding = decoded encoding s
  extract_payload_raw v encoding = sprint lib v

-- The three clamps of transform.substring and of the substring parser, and the slice.
abbrev clamp_start : ℤ → ℤ
clamp_start start = if ltb_ℤ start (pos 0) then pos 0 else start

abbrev clamp_end : ℕ → ℤ → ℤ
clamp_end size stop = if ltb_ℤ (pos size) stop then pos size else stop

unfoldable pub substring : Bytes → ℤ → ℤ → Result Bytes
unfolding slice
substring text start stop =
    let a = clamp_start start in
    let b = clamp_end (length text) stop in slice text (if ltb_ℤ b a then b else a) b

-- With an end that is not negative a substring never panics, and is the part of the text from the start
-- to the end, each cut to the text's length, the start also to the end; a negative start counts as 0.
pub substring_lem :
    (text : Bytes) (a b : ℕ)
    → (substring text (pos a) (pos b) ≡ (
        let e : ℕ = if ltb (length text) b then length text else b in
        ok (take (e - a) (drop (if ltb e a then e else a) text))))
      × (substring text (negsuc a) (pos b) ≡ substring text (pos 0) (pos b))
unfolding substring
substring_lem text a b = (ground arith, ground arith)

-- A substring whose end is negative panics, whatever the text and the start.
pub substring_negative_end :
    (text : Bytes) (start : ℤ) (n : ℕ) → substring text start (negsuc n) ≡ panic
unfolding substring
substring_negative_end text (pos a) n = ground arith
substring_negative_end text (negsuc a) n = ground arith
