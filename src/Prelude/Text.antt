-- ===== src/Prelude/Text.antt =====
-- Go's `string` as its bytes, with the functions of the `strings` and `encoding/hex` packages that
-- the program calls. White space and letter case are those of ASCII.
pub mod Trim
use Prim.Native.Char.{code}
use Prim.Native.String.{String}
use quantix_cnnector_go.Prelude.{
  ℕ, zero, suc, ◌+◌, ◌-◌, ◌*◌, ◌/◌, ◌%◌, ◌≡◌, refl, ◌↔◌, Bool, true, false, ◌&&◌, ◌||◌, Option,
  none, some, List, [], ◌∷◌, ◌++◌, map, arith, ltb, leb, ◌==◌, ==_iff, if◌then◌else◌, length,
}
use quantix_cnnector_go.Prelude.Int.{ℤ, pos, negsuc}

abbrev pub Bytes : Type 0
Bytes = List ℕ

-- The bytes of a literal, which is ASCII.
abbrev pub codes : String → Bytes
codes String.[] = []
codes (String.◌∷◌ c s) = code c ∷ codes s

abbrev utf8_of : ℕ → Bytes
utf8_of c =
    if ltb c 128
    then c ∷ []
    else if ltb c 2048
    then (192 + c / 64) ∷ (128 + c % 64) ∷ []
    else (224 + c / 4096) ∷ (128 + c / 64 % 64) ∷ (128 + c % 64) ∷ []

-- The bytes of a literal whose characters have at most three bytes each.
abbrev pub utf8 : String → Bytes
utf8 String.[] = []
utf8 (String.◌∷◌ c s) = utf8_of (code c) ++ utf8 s

unfoldable pub eq_bytes : Bytes → Bytes → Bool
eq_bytes [] [] = true
eq_bytes [] (y ∷ ys) = false
eq_bytes (x ∷ xs) [] = false
eq_bytes (x ∷ xs) (y ∷ ys) = x == y && eq_bytes xs ys

pub eq_bytes_iff : (xs ys : Bytes) → (eq_bytes xs ys ≡ true) ↔ (xs ≡ ys)
unfolding eq_bytes
eq_bytes_iff [] [] = (λ _. refl, λ _. refl)
eq_bytes_iff [] (y ∷ ys) = (λ h. cc, λ h. cc)
eq_bytes_iff (x ∷ xs) [] = (λ h. cc, λ h. cc)
eq_bytes_iff (x ∷ xs) (y ∷ ys) = (
  λ h. ground (arith, (eq_bytes_iff xs ys).0),
  λ h. ground (arith, ==_iff x y, (eq_bytes_iff xs ys).1),
)

pub eq_bytes_refl : (xs : Bytes) → eq_bytes xs xs ≡ true
eq_bytes_refl xs = (eq_bytes_iff xs xs).1 refl

unfoldable pub is_space : ℕ → Bool
is_space c = c == 32 || (leb 9 c && leb c 13)

-- strings.TrimLeftFunc, strings.TrimRightFunc
unfoldable pub trim_left : (ℕ → Bool) → Bytes → Bytes
trim_left p [] = []
trim_left p (x ∷ xs) = if p x then trim_left p xs else x ∷ xs

abbrev pub keep_unless : Bool → ℕ → Bytes → Bytes
keep_unless drop x [] = if drop then [] else x ∷ []
keep_unless drop x (y ∷ ys) = x ∷ y ∷ ys

unfoldable pub trim_right : (ℕ → Bool) → Bytes → Bytes
trim_right p [] = []
trim_right p (x ∷ xs) = keep_unless (p x) x (trim_right p xs)

unfoldable pub trim_space : Bytes → Bytes
unfolding is_space trim_left trim_right
trim_space s = trim_right is_space (trim_left is_space s)

unfoldable pub lower_byte : ℕ → ℕ
lower_byte c = if leb b'A' c && leb c b'Z' then c + 32 else c

unfoldable pub to_lower : Bytes → Bytes
unfolding lower_byte
to_lower = map lower_byte

abbrev pub upper_byte : ℕ → ℕ
upper_byte c = if leb b'a' c && leb c b'z' then c - 32 else c

unfoldable pub to_upper : Bytes → Bytes
to_upper = map upper_byte

unfoldable pub has_prefix : Bytes → Bytes → Bool
has_prefix [] s = true
has_prefix (p ∷ ps) [] = false
has_prefix (p ∷ ps) (x ∷ xs) = p == x && has_prefix ps xs

unfoldable pub contains : Bytes → Bytes → Bool
unfolding has_prefix
contains p [] = has_prefix p []
contains p (x ∷ xs) = has_prefix p (x ∷ xs) || contains p xs

-- strings.ContainsAny(s, cutset)
unfoldable pub member : ℕ → Bytes → Bool
member c [] = false
member c (x ∷ xs) = x == c || member c xs

unfoldable pub contains_any : Bytes → Bytes → Bool
unfolding member
contains_any cutset [] = false
contains_any cutset (x ∷ xs) = member x cutset || contains_any cutset xs

-- strings.ReplaceAll(s, old, new) for a non-empty `old`: `skip` bytes of a match are still to pass.
unfoldable pub replace_from : ℕ → Bytes → Bytes → Bytes → Bytes
unfolding has_prefix
replace_from skip old new [] = []
replace_from (suc k) old new (x ∷ xs) = replace_from k old new xs
replace_from zero old new (x ∷ xs) =
    let hit = new ++ replace_from (length old - 1) old new xs in
    let miss = x ∷ replace_from zero old new xs in if has_prefix old (x ∷ xs) then hit else miss

unfoldable pub replace_all : Bytes → Bytes → Bytes → Bytes
unfolding replace_from
replace_all s old new = replace_from zero old new s

-- strings.Split(s, sep) for a one-byte separator
abbrev push_head : ℕ → List Bytes → List Bytes
push_head c [] = (c ∷ []) ∷ []
push_head c (w ∷ ws) = (c ∷ w) ∷ ws

unfoldable pub split : ℕ → Bytes → List Bytes
split sep [] = [] ∷ []
split sep (x ∷ xs) = let rest = split sep xs in if x == sep then [] ∷ rest else push_head x rest

unfoldable pub join : ℕ → List Bytes → Bytes
join sep [] = []
join sep (w ∷ []) = w
join sep (w ∷ v ∷ ws) = w ++ sep ∷ join sep (v ∷ ws)

-- Decimal notation; a number has no more digits than its value plus one.
unfoldable pub digits_from : ℕ → ℕ → Bytes → Bytes
digits_from zero n acc = acc
digits_from (suc fuel) n acc =
    let rest = digits_from fuel (n / 10) ((48 + n % 10) ∷ acc) in
    if ltb n 10 then (48 + n) ∷ acc else rest

unfoldable pub decimal : ℕ → Bytes
unfolding digits_from
decimal n = digits_from (suc n) n []

unfoldable pub show_int : ℤ → Bytes
unfolding decimal
show_int (pos n) = decimal n
show_int (negsuc n) = b'-' ∷ decimal (suc n)

-- encoding/hex
hex_digit : ℕ → Option ℕ
hex_digit c =
    if leb b'0' c && leb c b'9'
    then some (c - 48)
    else if leb b'a' c && leb c b'f'
    then some (c - 87)
    else if leb b'A' c && leb c b'F'
    then some (c - 55)
    else none

abbrev hex_pair : Option ℕ → Option ℕ → Option Bytes → Option Bytes
hex_pair (some h) (some l) (some rest) = some ((16 * h + l) ∷ rest)
hex_pair _ _ _ = none

unfoldable pub hex_decode_string : Bytes → Option Bytes
unfolding hex_digit
hex_decode_string [] = some []
hex_decode_string (a ∷ []) = none
hex_decode_string (a ∷ b ∷ rest) = hex_pair (hex_digit a) (hex_digit b) (hex_decode_string rest)

hex_char : ℕ → ℕ
hex_char d = if ltb d 10 then 48 + d else 87 + d

unfoldable pub hex_encode : Bytes → Bytes
unfolding hex_char
hex_encode [] = []
hex_encode (b ∷ bs) = hex_char (b / 16) ∷ hex_char (b % 16) ∷ hex_encode bs

-- `fmt.Sprintf("% x", data)`: two lower-case digits for each byte, a space between bytes.
unfoldable pub hex_spaced : Bytes → Bytes
unfolding hex_char
hex_spaced [] = []
hex_spaced (b ∷ []) = hex_char (b / 16) ∷ hex_char (b % 16) ∷ []
hex_spaced (b ∷ c ∷ bs) = hex_char (b / 16) ∷ hex_char (b % 16) ∷ 32 ∷ hex_spaced (c ∷ bs)

text_examples :
    (utf8 "a，" ≡ 97 ∷ 239 ∷ 188 ∷ 140 ∷ [])
    × (trim_space (codes " a b\n") ≡ codes "a b")
    × (replace_all (codes "1 2 3") (codes " ") [] ≡ codes "123")
    × (split b'.' (codes "a.bc.") ≡ codes "a" ∷ codes "bc" ∷ [] ∷ [])
    × (show_int (negsuc 119) ≡ codes "-120")
    × (hex_decode_string (codes "0aFf") ≡ some (10 ∷ 255 ∷ []))
    × (hex_spaced (10 ∷ 255 ∷ []) ≡ codes "0a ff")
unfolding trim_space replace_all split show_int hex_decode_string hex_spaced
text_examples = (refl, refl, refl, refl, refl, refl, refl)
