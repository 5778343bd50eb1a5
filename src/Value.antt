-- ===== src/Value.antt =====
-- The dynamic values of the program: Go's `any` with the types that its type switches tell apart, and
-- `map[string]any` as an association list (a missing key reads as nil).
-- Also what Go's libraries and the packages under vendor/ do for the program and the model does not
-- define: floating-point arithmetic, regular expressions, base64 and expr-lang.
pub mod Maps
pub mod Sprint
pub mod Toy
use quantix_cnnector_go.Prelude.{
  ℕ, ◌+◌, ◌≡◌, Bool, true, false, ◌||◌, Option, none, some, List, [], ◌∷◌, ◌++◌, arith, ◌==◌,
  if◌then◌else◌, ◌^◌,
}
use quantix_cnnector_go.Prelude.Int.{ℤ, pos, negsuc}
use quantix_cnnector_go.Prelude.Text.{Bytes, codes, eq_bytes}

-- A floating-point number is its bit pattern, as `math.Float64frombits` takes it.
abbrev pub Float : Type 0
Float = ℕ

mutual
  pub data Value : Type 0 where
    null : Value
    bool : Bool → Value
    int int32 int64 : ℤ → Value
    uint uint32 uint64 : ℕ → Value
    float32 float64 : Float → Value
    float_ptr : Option Float → Value
    number : Bytes → Value
    string : Bytes → Value
    bytes : Bytes → Value
    ints : List ℤ → Value
    bools : List Bool → Value
    items : Items → Value
    object : Fields → Value

  pub data Items : Type 0 where
    nil : Items
    cons : Value → Items → Items

  pub data Fields : Type 0 where
    end : Fields
    field : Bytes → Value → Fields → Fields

-- An error is its dynamic type, as `%T` prints it, and its text.
pub record Error : Type 0 where
  pub go_type : Bytes
  pub text : Bytes

-- What a Go function does: return a value, return an error, or panic.
pub data Result {ℓ} (A : Type ℓ) : Type ℓ where
  ok : A → Result A
  err : Error → Result A
  panic : Result A

infixl 5 ◌>>=◌
abbrev pub ◌>>=◌ {ℓ κ} : {A : Type ℓ} {B : Type κ} → Result A → (A → Result B) → Result B
ok a >>= f = f a
err e >>= f = err e
panic >>= f = panic

-- fmt.Errorf without %w, and with it
abbrev pub errorf : Bytes → Error
errorf text = record { go_type = codes "*errors.errorString"; text = text }

abbrev pub wrap_errorf : Bytes → Error
wrap_errorf text = record { go_type = codes "*fmt.wrapError"; text = text }

pub record Libs : Type 0 where
  -- float64(n), int(f), float64(f) of a float32, a * b and a / b
  pub float_of_int : ℤ → Float
  pub int_of_float : Float → ℤ
  pub widen : Float → Float
  pub mul : Float → Float → Float
  pub div : Float → Float → Float
  -- strconv.ParseFloat(s, 64), fmt.Sscanf(s, "%f"), and `%v` of a float64 and of a float32
  pub parse_float : Bytes → Option Float
  pub scan_float : Bytes → Float
  pub show_float : Float → Bytes
  pub show_float32 : Float → Bytes
  -- `%v` of a pointer, and the RFC 3339 text of a time
  pub show_pointer : Float → Bytes
  pub show_time : ℕ → Bytes
  -- strconv.Atoi and fmt.Sscanf(s, "%d")
  pub atoi : Bytes → Option ℤ
  pub scan_int : Bytes → Option ℤ
  -- regexp.Compile(pattern), then FindStringSubmatch(text)
  pub regexp : Bytes → Result (Bytes → List Bytes)
  -- base64.StdEncoding.DecodeString
  pub base64 : Bytes → Result Bytes
  -- expr.Compile and expr.Run of a program over an environment
  pub expr_compile : Bytes → Fields → Option Error
  pub expr_run : Bytes → Fields → Result Value

-- `f == 0` of a float64: both zeros
abbrev pub is_zero_float : Float → Bool
is_zero_float f = f == 0 || f == 2 ^ 63

-- execValueOr, mgrValueOr: a fallback for nil
unfoldable pub value_or : Value → Value → Value
value_or null fallback = fallback
value_or v fallback = v

-- `v.(map[string]any)`, `v.([]any)` with the comma-ok form
unfoldable pub as_object : Value → Option Fields
as_object (object fs) = some fs
as_object _ = none

unfoldable pub as_items : Value → Option Items
as_items (items xs) = some xs
as_items _ = none
