-- ===== src/Prelude/Text/Trim.antt =====
-- strings.TrimSpace: trimming twice is trimming once.
use quantix_cnnector_go.Prelude.{ℕ, ◌≡◌, refl, Bool, false, Bool-cases, inl, inr, [], ◌∷◌, arith}
use quantix_cnnector_go.Prelude.Text.{
  Bytes, is_space, trim_left, trim_right, trim_space, keep_unless,
}

trim_left-trim_left : (p : ℕ → Bool) (s : Bytes) → trim_left p (trim_left p s) ≡ trim_left p s
unfolding trim_left
trim_left-trim_left p [] = refl
trim_left-trim_left p (x ∷ xs) = ground (arith, trim_left-trim_left p xs)

keep_unless-again :
    (p : ℕ → Bool) (x : ℕ) (t : Bytes)
    → trim_right p t ≡ t
    → trim_right p (keep_unless (p x) x t) ≡ keep_unless (p x) x t
unfolding trim_right
keep_unless-again p x [] h = elim (Bool-cases (p x)) [ inl e ↦ rw e refl | inr e ↦ rw (e, e) refl ]
keep_unless-again p x (y ∷ ys) h = rw h refl

pub trim_right-trim_right :
    (p : ℕ → Bool) (s : Bytes) → trim_right p (trim_right p s) ≡ trim_right p s
unfolding trim_right
trim_right-trim_right p [] = refl
trim_right-trim_right p (x ∷ xs) =
    keep_unless-again p x (trim_right p xs) (trim_right-trim_right p xs)

-- What starts with no space still does after the end is trimmed.
keep_unless-head :
    (p : ℕ → Bool) (x : ℕ) (t : Bytes)
    → p x ≡ false
    → trim_left p (keep_unless (p x) x t) ≡ keep_unless (p x) x t
unfolding trim_left
keep_unless-head p x [] h = rw (h, h) refl
keep_unless-head p x (y ∷ ys) h = rw h refl

trim_left-trim_right :
    (p : ℕ → Bool) (s : Bytes)
    → trim_left p (trim_right p (trim_left p s)) ≡ trim_right p (trim_left p s)
unfolding trim_left trim_right
trim_left-trim_right p [] = refl
trim_left-trim_right p (x ∷ xs) = elim (Bool-cases (p x)) [
  | inl e ↦ rw e (trim_left-trim_right p xs)
  | inr e ↦ rw e (keep_unless-head p x (trim_right p xs) e)
]

pub trim_space-trim_space : (s : Bytes) → trim_space (trim_space s) ≡ trim_space s
unfolding trim_space
trim_space-trim_space s =
    rw (trim_left-trim_right is_space s) (trim_right-trim_right is_space (trim_left is_space s))
