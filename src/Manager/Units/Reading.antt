-- ===== src/Manager/Units/Reading.antt =====
-- What is found in the raw text of a device (recoverWeightUnit).
use quantix_cnnector_go.Prelude.{
  ℕ, ◌≡◌, refl, ap, Bool, true, false, ◌||◌, not, none, some, [], ◌∷◌, ◌++◌, append-nil, ◌==◌,
  arith,
}
use quantix_cnnector_go.Prelude.Text.{Bytes, eq_bytes, is_space}
use quantix_cnnector_go.Manager.Units.{
  unit_byte, digit_byte, span, unsigned_at, number_at, find_reading, regexp_space,
}

-- Every byte passes the test; the text is empty or its first byte does not.
abbrev pub Every : (ℕ → Bool) → Bytes → Type 0
Every p [] = Unit {0}
Every p (c ∷ cs) = (p c ≡ true) × Every p cs

abbrev pub Stops : (ℕ → Bool) → Bytes → Type 0
Stops p [] = Unit {0}
Stops p (c ∷ cs) = p c ≡ false

span-Every : (p : ℕ → Bool) (xs ys : Bytes) → Every p xs → Stops p ys → span p (xs ++ ys) ≡ (xs, ys)
unfolding span
span-Every p [] [] e s = refl
span-Every p [] (y ∷ ys) e s = rw s refl
span-Every p (x ∷ xs) ys e s = rw (e.0, span-Every p xs ys e.1 s) refl

-- Neither a digit nor a sign.
unfoldable pub quiet_byte : ℕ → Bool
quiet_byte c = not (digit_byte c || c == b'-' || c == b'+')

quiet-parts :
    (c : ℕ) → quiet_byte c ≡ true → ((c == b'-' || c == b'+') ≡ false) × (digit_byte c ≡ false)
unfolding quiet_byte
quiet-parts c q = (ground arith, ground arith)

digit-sign : (c : ℕ) → digit_byte c ≡ true → (c == b'-' || c == b'+') ≡ false
unfolding digit_byte
digit-sign c h = ground arith

unit-space : (c : ℕ) → unit_byte c ≡ true → regexp_space c ≡ false
unfolding unit_byte is_space
unit-space c h = ground arith

number_at-quiet : (c : ℕ) (cs : Bytes) → quiet_byte c ≡ true → number_at (c ∷ cs) ≡ none
unfolding number_at unsigned_at span eq_bytes
number_at-quiet c cs q = let (sign, digit) = quiet-parts c q in rw (sign, digit) refl

space-Stops : digit_byte 32 ≡ false
unfolding digit_byte
space-Stops = refl

number_at-digits :
    (d : ℕ) (ds u : Bytes)
    → Every digit_byte (d ∷ ds)
    → number_at (d ∷ ds ++ 32 ∷ u) ≡ some (d ∷ ds, 32 ∷ u)
unfolding number_at unsigned_at eq_bytes
number_at-digits d ds u e =
    rw (digit-sign d e.0, span-Every digit_byte (d ∷ ds) (32 ∷ u) e space-Stops)
      (ap (λ x. some (x, 32 ∷ u)) (append-nil (d ∷ ds)))

unit-Every :
    (w : ℕ) (ws : Bytes)
    → Every unit_byte (w ∷ ws)
    → (span unit_byte (span regexp_space (32 ∷ w ∷ ws)).1).0 ≡ w ∷ ws
unfolding is_space
unit-Every w ws u =
    let spaces = span-Every regexp_space (32 ∷ []) (w ∷ ws) (refl, tt) (unit-space w u.0) in
    let word = span-Every unit_byte (w ∷ ws) [] u tt in
    rw spaces (ap (λ x. x.0) (rw (append-nil (w ∷ ws)) at word))

-- The reading of a text such as "ST,GS, 12 kg": after bytes that are neither digits nor signs the first number
-- and the word of letters and colons behind the space are found, whole.
pub find_reading-word :
    (before : Bytes) (d : ℕ) (ds : Bytes) (w : ℕ) (ws : Bytes)
    → Every quiet_byte before
    → Every digit_byte (d ∷ ds)
    → Every unit_byte (w ∷ ws)
    → find_reading (before ++ d ∷ ds ++ 32 ∷ w ∷ ws) ≡ some (d ∷ ds, w ∷ ws)
unfolding find_reading
find_reading-word [] d ds w ws q e u =
    rw (number_at-digits d ds (w ∷ ws) e, find_reading)
      (ap (λ x. some (d ∷ ds, x)) (unit-Every w ws u))
find_reading-word (c ∷ cs) d ds w ws q e u =
    rw (number_at-quiet c (cs ++ d ∷ ds ++ 32 ∷ w ∷ ws) q.0, find_reading)
      (find_reading-word cs d ds w ws q.1 e u)
