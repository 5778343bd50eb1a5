-- ===== src/Modbus/Params.antt =====
-- internal/driver/util.go: what a driver reads of its parameters (asString, asInt, asBool).
use quantix_cnnector_go.Prelude.{Bool, false, ◌||◌, not, Option, none, some, ◌==◌}
use quantix_cnnector_go.Prelude.Int.{ℤ, pos, negsuc, int_of_bits}
use quantix_cnnector_go.Prelude.Text.{Bytes, codes, eq_bytes, trim_space, to_lower}
use quantix_cnnector_go.Value.{
  Value, null, bool, int, int32, int64, uint, uint32, uint64, float32, float64, number, string,
  Fields, Libs, Float, is_zero_float,
}
use quantix_cnnector_go.Value.Maps.{get}
use quantix_cnnector_go.Value.Sprint.{sprint}

module _ (lib : Libs) where
  abbrev text_or : Value → Bytes → Bytes
  text_or null fallback = fallback
  text_or v fallback = sprint lib v

  unfoldable pub as_string : Fields → Bytes → Bytes → Bytes
  as_string m key fallback = text_or (get m key) fallback

  abbrev float_or : Option Float → ℤ → ℤ
  float_or none fallback = fallback
  float_or (some f) fallback = lib.int_of_float f

  abbrev int_or_float : Option ℤ → Option Float → ℤ → ℤ
  int_or_float (some n) f fallback = n
  int_or_float none f fallback = float_or f fallback

  unfoldable pub int_of : Value → ℤ → ℤ
  int_of (int n) fallback = n
  int_of (int32 n) fallback = n
  int_of (int64 n) fallback = n
  int_of (uint n) fallback = int_of_bits n
  int_of (uint32 n) fallback = int_of_bits n
  int_of (uint64 n) fallback = int_of_bits n
  int_of (float32 f) fallback = lib.int_of_float (lib.widen f)
  int_of (float64 f) fallback = lib.int_of_float f
  int_of (number s) fallback = int_or_float (lib.atoi s) (lib.parse_float s) fallback
  int_of (string t) fallback =
      let s = trim_space t in int_or_float (lib.atoi s) (lib.parse_float s) fallback
  int_of v fallback = fallback

  unfoldable pub as_int : Fields → Bytes → ℤ → ℤ
  unfolding int_of
  as_int m key fallback = int_of (get m key) fallback

abbrev is_zero : ℤ → Bool
is_zero (pos n) = n == 0
is_zero (negsuc n) = false

abbrev is_on : Bytes → Bool
is_on s =
    eq_bytes s (codes "1")
    || eq_bytes s (codes "true")
    || eq_bytes s (codes "yes")
    || eq_bytes s (codes "on")

unfoldable pub bool_of : Value → Bool → Bool
bool_of (bool b) fallback = b
bool_of (int n) fallback = not (is_zero n)
bool_of (int64 n) fallback = not (is_zero n)
bool_of (float64 f) fallback = not (is_zero_float f)
bool_of (string t) fallback = is_on (to_lower (trim_space t))
bool_of v fallback = fallback

unfoldable pub as_bool : Fields → Bytes → Bool → Bool
unfolding bool_of
as_bool m key fallback = bool_of (get m key) fallback
