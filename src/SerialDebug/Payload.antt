-- ===== src/SerialDebug/Payload.antt =====
-- internal/service/serial_debug_service.go: what is sent, and how parameters are read (buildPayload,
-- getFloat, parseDbgParity, parseDbgStopBits, dbgValueOr, valueOrNilString).
use quantix_cnnector_go.Prelude.{
  Bool, Option, none, some, [], ◌∷◌, ◌++◌, if◌then◌else◌, ◌⊎◌, inl, inr,
}
use quantix_cnnector_go.Prelude.Text.{
  Bytes, codes, eq_bytes, trim_space, to_lower, to_upper, replace_all, hex_decode_string,
}
use quantix_cnnector_go.Value.{
  Value, null, int, int64, float32, float64, string, Libs, Float, Error, wrap_errorf,
}
use quantix_cnnector_go.Config.Mappings.{is_empty}

pub data Parity : Type 0 where
  even_parity odd_parity no_parity : Parity

pub data StopBits : Type 0 where
  one_stop_bit two_stop_bits : StopBits

unfoldable pub parse_dbg_parity : Bytes → Parity
parse_dbg_parity v =
    let s = to_upper (trim_space v) in
    if eq_bytes s (codes "E")
    then even_parity
    else if eq_bytes s (codes "O")
    then odd_parity
    else no_parity

-- fmt.Sscanf(s, "%f"), `v >= 2`, and the text of encoding/hex's error.
pub record Numbers : Type 0 where
  pub scan : Bytes → Option Float
  pub at_least_two : Float → Bool
  pub hex_error : Bytes → Bytes

abbrev scanned : Option Float → Float → Float
scanned none fallback = fallback
scanned (some f) fallback = f

abbrev decoded : (Bytes → Bytes) → Bytes → Option Bytes → Error ⊎ Bytes
decoded hex_error clean none = inl (wrap_errorf (codes "invalid hex payload: " ++ hex_error clean))
decoded hex_error clean (some data_) = inr data_

module _ (numbers : Numbers) where
  unfoldable pub get_float : Libs → Value → Float → Float
  get_float lib (float64 f) fallback = f
  get_float lib (float32 f) fallback = lib.widen f
  get_float lib (int n) fallback = lib.float_of_int n
  get_float lib (int64 n) fallback = lib.float_of_int n
  get_float lib (string t) fallback = scanned (numbers.scan (trim_space t)) fallback
  get_float lib v fallback = fallback

  unfoldable pub parse_dbg_stop_bits : Float → StopBits
  parse_dbg_stop_bits v = if numbers.at_least_two v then two_stop_bits else one_stop_bit

  abbrev line_end : Bytes → Bytes
  line_end line_ending =
      let s = to_lower (trim_space line_ending) in
      if eq_bytes s (codes "cr")
      then 13 ∷ []
      else if eq_bytes s (codes "lf")
      then 10 ∷ []
      else if eq_bytes s (codes "crlf")
      then 13 ∷ 10 ∷ []
      else []

  abbrev ended : Error ⊎ Bytes → Bytes → Error ⊎ Bytes
  ended (inl e) line_ending = inl e
  ended (inr payload) line_ending = inr (payload ++ line_end line_ending)

  unfoldable pub build_payload : Bytes → Bytes → Bytes → Error ⊎ Bytes
  build_payload text data_format line_ending =
      let clean = replace_all (trim_space text) (codes " ") [] in
      let hex = decoded numbers.hex_error clean (hex_decode_string clean) in
      ended (if eq_bytes (to_lower (trim_space data_format)) (codes "hex") then hex else inr text)
        line_ending

unfoldable pub value_or_nil_string : Bytes → Value
value_or_nil_string v = if is_empty (trim_space v) then null else string v
