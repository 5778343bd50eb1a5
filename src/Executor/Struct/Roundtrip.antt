-- ===== src/Executor/Struct/Roundtrip.antt =====
-- Layouts read back what was written: integers of each width and byte order, and whole records.
use quantix_cnnector_go.Prelude.{
  ℕ, ◌+◌, ◌/◌, ◌%◌, ◌^◌, ◌-◌, ◌<◌, ◌≡◌, refl, ap, ◌∙◌, Bool, true, false, [], ◌∷◌, ◌++◌, length,
  length-append, arith, take, drop_prefix,
}
use quantix_cnnector_go.Prelude.Int.{ℤ, pos, negsuc, signed, ◌+ℤ◌, pos-+ℤ}
use quantix_cnnector_go.Prelude.Text.{Bytes}
use quantix_cnnector_go.Value.{Value, int, int64, Fields, Libs, ok}
use quantix_cnnector_go.Executor.Struct.{
  word, read_struct_bytes, Kind, u8, i8, u16, i16, u32, i32, parse_kind,
}
use quantix_cnnector_go.Executor.Struct.Bounds.{read_inside}

-- The widths of the integer types, and how a value is written in either byte order.
pub data Width : Type 0 where
  one two four : Width

abbrev pub size : Width → ℕ
size one = 1
size two = 2
size four = 4

abbrev pub limit : Width → ℕ
limit one = 256
limit two = 65536
limit four = 4294967296

abbrev pub encode : Width → Bool → ℕ → Bytes
encode one le x = x ∷ []
encode two true x = (x % 256) ∷ (x / 256) ∷ []
encode two false x = (x / 256) ∷ (x % 256) ∷ []
encode four true x = (x % 256) ∷ (x / 256 % 256) ∷ (x / 65536 % 256) ∷ (x / 16777216) ∷ []
encode four false x = (x / 16777216) ∷ (x / 65536 % 256) ∷ (x / 256 % 256) ∷ (x % 256) ∷ []

abbrev pub unsigned_kind : Width → Kind
unsigned_kind one = u8
unsigned_kind two = u16
unsigned_kind four = u32

abbrev pub signed_kind : Width → Kind
signed_kind one = i8
signed_kind two = i16
signed_kind four = i32

-- The types that the two kinds produce.
abbrev pub integer : Width → ℤ → Value
integer one n = int n
integer two n = int n
integer four n = int64 n

-- The two's complement pattern of an integer.
abbrev pub pattern_of : Width → ℤ → ℕ
pattern_of w (pos n) = n
pattern_of w (negsuc n) = limit w - 1 - n

abbrev pub Fits : Width → ℤ → Type 0
Fits w (pos n) = n + n < limit w
Fits w (negsuc n) = n + n < limit w

word-encode : (w : Width) (le : Bool) (x : ℕ) → x < limit w → word le (encode w le x) ≡ x
word-encode one true x h = omega arith
word-encode one false x h = omega arith
word-encode two true x h = omega arith
word-encode two false x h = omega arith
word-encode four true x h = omega arith
word-encode four false x h = omega arith

pub length-encode : (w : Width) (le : Bool) (x : ℕ) → length (encode w le x) ≡ size w
length-encode one le x = refl
length-encode two true x = refl
length-encode two false x = refl
length-encode four true x = refl
length-encode four false x = refl

take-encode :
    (w : Width) (le : Bool) (x : ℕ) (rest : Bytes)
    → take (size w) (encode w le x ++ rest) ≡ encode w le x
take-encode one le x rest = refl
take-encode two true x rest = refl
take-encode two false x rest = refl
take-encode four true x rest = refl
take-encode four false x rest = refl

-- A written value between what comes before and after it in a payload.
abbrev pub within : Bytes → Bytes → Bytes → Bytes
within before middle rest = before ++ (middle ++ rest)

pub length-within :
    (w : Width) (le : Bool) (x : ℕ) (before rest : Bytes)
    → length (within before (encode w le x) rest) ≡ length before + (size w + length rest)
length-within w le x before rest = omega (
  arith,
  length-append before (encode w le x ++ rest),
  length-append (encode w le x) rest,
  length-encode w le x,
)

module _ (w : Width) (le : Bool) (x : ℕ) (before rest : Bytes)
    (small : length (within before (encode w le x) rest) < 2 ^ 63) where
  read-encode :
      read_struct_bytes (within before (encode w le x) rest) (pos (length before)) (pos (size w))
      ≡ ok (encode w le x)
  read-encode =
      read_inside (within before (encode w le x) rest) (length before) (size w)
        (omega (arith, length-within w le x before rest)) small
        (omega (arith, length-within w le x before rest))
      ∙ ap ok (
          ap (take (size w)) (drop_prefix before (encode w le x ++ rest)) ∙ take-encode w le x rest)

  next_offset : pos (length before) +ℤ pos (size w) ≡ pos (length before + size w)
  next_offset = pos-+ℤ (length before) (size w) (omega (arith, length-within w le x before rest))

signed-pattern :
    (w : Width) (n : ℤ)
    → Fits w n
    → (pattern_of w n < limit w) × (signed (limit w / 2) (pattern_of w n) ≡ n)
signed-pattern one (pos n) h = ground arith
signed-pattern two (pos n) h = ground arith
signed-pattern four (pos n) h = ground arith
signed-pattern one (negsuc n) h = ground arith
signed-pattern two (negsuc n) h = ground arith
signed-pattern four (negsuc n) h = ground arith

module _ (lib : Libs) (le : Bool) (before rest : Bytes) (length_option : ℤ) (m : Fields) where
  pub parse-unsigned :
      (w : Width) (x : ℕ)
      → x < limit w
      → length (within before (encode w le x) rest) < 2 ^ 63
      → parse_kind lib
          (unsigned_kind w)
          (within before (encode w le x) rest)
          (pos (length before))
          length_option
          le
          m
        ≡ ok (integer w (pos x), pos (length before + size w))
  unfolding parse_kind
  parse-unsigned one x h s = rw (
    read-encode one le x before rest s,
    next_offset one le x before rest s,
    word-encode one le x h,
  )
  parse-unsigned two x h s = rw (
    read-encode two le x before rest s,
    next_offset two le x before rest s,
    word-encode two le x h,
  )
  parse-unsigned four x h s = rw (
    read-encode four le x before rest s,
    next_offset four le x before rest s,
    word-encode four le x h,
  )

  parse-pattern :
      (w : Width) (x : ℕ)
      → x < limit w
      → length (within before (encode w le x) rest) < 2 ^ 63
      → parse_kind lib
          (signed_kind w)
          (within before (encode w le x) rest)
          (pos (length before))
          length_option
          le
          m
        ≡ ok (integer w (signed (limit w / 2) x), pos (length before + size w))
  unfolding parse_kind
  parse-pattern one x h s = rw (
    read-encode one le x before rest s,
    next_offset one le x before rest s,
    word-encode one le x h,
  )
  parse-pattern two x h s = rw (
    read-encode two le x before rest s,
    next_offset two le x before rest s,
    word-encode two le x h,
  )
  parse-pattern four x h s = rw (
    read-encode four le x before rest s,
    next_offset four le x before rest s,
    word-encode four le x h,
  )

  -- A signed integer of 8, 16 or 32 bits that was written in two's complement, in either byte order,
  -- anywhere in a payload, reads back as itself under i8, i16 or i32, and the cursor moves behind it;
  -- the other options of the field do not matter.
  pub parse-signed :
      (w : Width) (n : ℤ)
      → Fits w n
      → length (within before (encode w le (pattern_of w n)) rest) < 2 ^ 63
      → parse_kind lib
          (signed_kind w)
          (within before (encode w le (pattern_of w n)) rest)
          (pos (length before))
          length_option
          le
          m
        ≡ ok (integer w n, pos (length before + size w))
  parse-signed w n h s =
      let (bound, back) = signed-pattern w n h in
      parse-pattern w (pattern_of w n) bound s
      ∙ ap (λ (k : ℤ). ok (integer w k, pos (length before + size w))) back
