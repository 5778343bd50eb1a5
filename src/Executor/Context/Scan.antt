-- ===== src/Executor/Context/Scan.antt =====
-- The scanner on a text that is one placeholder, and paths with their parts.
use quantix_cnnector_go.Prelude.{
  ℕ, suc, zero, ◌+◌, ◌≡◌, refl, ap, ◌∙◌, ◌==◌, Bool, false, some, List, [], ◌∷◌, ◌++◌, length,
  length-append, arith, ◌≤◌,
}
use quantix_cnnector_go.Prelude.Text.{
  Bytes, trim_space, trim_left, trim_right, is_space, split, join,
}
use quantix_cnnector_go.Executor.Context.{
  up_to_brace, placeholder_at, placeholders_from, placeholders, placeholder,
}

abbrev pub Lacks : ℕ → Bytes → Type 0
Lacks c [] = Unit {0}
Lacks c (x ∷ xs) = ((x == c) ≡ false) × Lacks c xs

up_to_brace-append : (w rest : Bytes) → Lacks b'}' w → up_to_brace (w ++ b'}' ∷ rest) ≡ some w
unfolding up_to_brace
up_to_brace-append [] rest h = refl
up_to_brace-append (x ∷ w) rest h = ground (arith, up_to_brace-append w rest h.1)

placeholders_from-skip : (k : ℕ) (s : Bytes) → length s ≤ k → placeholders_from k s ≡ []
unfolding placeholders_from
placeholders_from-skip k [] h = refl
placeholders_from-skip zero (x ∷ s) h = absurd (omega arith)
placeholders_from-skip (suc k) (x ∷ s) h = placeholders_from-skip k s (omega arith)

placeholders_from-hit :
    (c : ℕ) (s w : Bytes)
    → placeholder_at (c ∷ s) ≡ some w
    → placeholders_from zero (c ∷ s) ≡ w ∷ placeholders_from (length w + 2) s
unfolding placeholders_from
placeholders_from-hit c s w h = rw (h, placeholders_from)

placeholder_at-placeholder :
    (x : ℕ) (w : Bytes) → Lacks b'}' (x ∷ w) → placeholder_at (placeholder (x ∷ w)) ≡ some (x ∷ w)
unfolding placeholder_at
placeholder_at-placeholder x w h = rw (up_to_brace-append (x ∷ w) [] h, placeholder_at)

-- A text that is exactly one placeholder has one match, its path.
pub placeholders-placeholder :
    (x : ℕ) (w : Bytes) → Lacks b'}' (x ∷ w) → placeholders (placeholder (x ∷ w)) ≡ (x ∷ w) ∷ []
unfolding placeholders
placeholders-placeholder x w h =
    placeholders_from-hit b'$' (b'{' ∷ (x ∷ w) ++ b'}' ∷ []) (x ∷ w)
      (placeholder_at-placeholder x w h)
    ∙ ap (◌∷◌ (x ∷ w)) (
        placeholders_from-skip (length (x ∷ w) + 2) (b'{' ∷ (x ∷ w) ++ b'}' ∷ [])
          (omega (arith, length-append {0} (x ∷ w) (b'}' ∷ []))))

keep_unless_end :
    (p : ℕ → Bool) (xs : Bytes) (y : ℕ) → p y ≡ false → trim_right p (xs ++ y ∷ []) ≡ xs ++ y ∷ []
unfolding trim_right
keep_unless_end p [] y h = ground arith
keep_unless_end p (x ∷ []) y h = ground (arith)
keep_unless_end p (x ∷ x' ∷ xs) y h = ground (arith, keep_unless_end p (x' ∷ xs) y h)

pub trim-placeholder : (w : Bytes) → trim_space (placeholder w) ≡ placeholder w
unfolding trim_space trim_left
trim-placeholder w = keep_unless_end is_space (b'$' ∷ b'{' ∷ w) b'}' refl

split-Lacks : (w : Bytes) → Lacks b'.' w → split b'.' w ≡ w ∷ []
unfolding split
split-Lacks [] h = refl
split-Lacks (x ∷ w) h = ground (arith, split-Lacks w h.1)

split-append : (w rest : Bytes) → Lacks b'.' w → split b'.' (w ++ b'.' ∷ rest) ≡ w ∷ split b'.' rest
unfolding split
split-append [] rest h = refl
split-append (x ∷ w) rest h = ground (arith, split-append w rest h.1)

abbrev pub AllLack : ℕ → List Bytes → Type 0
AllLack c [] = Unit {0}
AllLack c (w ∷ ws) = Lacks c w × AllLack c ws

-- Splitting a joined path gives its parts.
pub split-join :
    (w : Bytes) (ws : List Bytes) → AllLack b'.' (w ∷ ws) → split b'.' (join b'.' (w ∷ ws)) ≡ w ∷ ws
unfolding join
split-join w [] h = split-Lacks w h.0
split-join w (v ∷ ws) h = split-append w (join b'.' (v ∷ ws)) h.0 ∙ ap (◌∷◌ w) (split-join v ws h.1)

pub Lacks-append : (c : ℕ) (xs ys : Bytes) → Lacks c xs → Lacks c ys → Lacks c (xs ++ ys)
Lacks-append c [] ys h g = g
Lacks-append c (x ∷ xs) ys h g = (h.0, Lacks-append c xs ys h.1 g)
