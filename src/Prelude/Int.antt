-- ===== src/Prelude/Int.antt =====
-- Go's `int` and `int64` as integers, with the wrap-around of 64-bit sums written out.
use quantix_cnnector_go.Prelude.{
  ℕ, suc, ◌+◌, ◌-◌, ◌*◌, ◌%◌, ◌^◌, ◌≤◌, ◌<◌, ◌≡◌, refl, Bool, arith, ltb, leb, if◌then◌else◌,
}

-- `negsuc n` is -(n + 1).
pub data ℤ : Type 0 where
  pos : ℕ → ℤ
  negsuc : ℕ → ℤ

abbrev pub pos_part : ℤ → ℕ
pos_part (pos n) = n
pos_part (negsuc n) = 0

abbrev pub neg_part : ℤ → ℕ
neg_part (pos n) = 0
neg_part (negsuc n) = suc n

-- a - b, as an integer.
abbrev pub sub_ℕ : ℕ → ℕ → ℤ
sub_ℕ a b = if leb b a then pos (a - b) else negsuc (b - a - 1)

abbrev pub ltb_ℤ : ℤ → ℤ → Bool
ltb_ℤ a b = ltb (pos_part a + neg_part b) (pos_part b + neg_part a)

abbrev pub leb_ℤ : ℤ → ℤ → Bool
leb_ℤ a b = leb (pos_part a + neg_part b) (pos_part b + neg_part a)

infix 50 ◌≤ℤ◌
abbrev pub ◌≤ℤ◌ : ℤ → ℤ → Type 0
a ≤ℤ b = pos_part a + neg_part b ≤ pos_part b + neg_part a

-- The value of a w-bit pattern in two's complement: `int8(b)`, `int16(x)`, `int32(x)`, `int64(x)`.
abbrev pub signed : ℕ → ℕ → ℤ
signed half x = if ltb x half then pos x else negsuc (2 * half - 1 - x)

abbrev pub int_half : ℕ
int_half = 2 ^ 63

abbrev pub int_mod : ℕ
int_mod = 2 ^ 64

-- `int(x)` for an unsigned x, and the 64-bit sum of two `int`s: both wrap around.
abbrev pub int_of_bits : ℕ → ℤ
int_of_bits x = signed int_half (x % int_mod)

abbrev pub bits_of_int : ℤ → ℕ
bits_of_int (pos n) = n % int_mod
bits_of_int (negsuc n) = int_mod - 1 - n % int_mod

unfoldable pub ◌+ℤ◌ : ℤ → ℤ → ℤ
a +ℤ b = int_of_bits (bits_of_int a + bits_of_int b)

infixl 65 ◌+ℤ◌
-- A sum of non-negative numbers that stays below 2^63 is the true sum.
pub pos-+ℤ : (a b : ℕ) → a + b < 2 ^ 63 → pos a +ℤ pos b ≡ pos (a + b)
unfolding ◌+ℤ◌
pos-+ℤ a b h = ground arith

-- One that passes it is negative.
pub pos-+ℤ_wraps :
    (a b : ℕ)
    → a < 2 ^ 63
    → b < 2 ^ 63
    → 2 ^ 63 ≤ a + b
    → pos a +ℤ pos b ≡ negsuc (2 ^ 64 - 1 - (a + b))
unfolding ◌+ℤ◌
pos-+ℤ_wraps a b p q h = ground arith

wrap_example : pos (2 ^ 63 - 1) +ℤ pos 1 ≡ negsuc (2 ^ 63 - 1)
unfolding ◌+ℤ◌
wrap_example = refl
