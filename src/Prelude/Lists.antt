-- ===== src/Prelude/Lists.antt =====
-- Lists measured and indexed by native numbers, under the library's names.
use Prim.Native.Nat.{ℕ, zero, suc, ◌+◌, ◌-◌, ◌≤◌, ◌<◌, min}
use mathlib.Core.Path.{◌≡◌, refl, ap, sym, ◌≡⟨◌⟩◌, ◌∎}
use mathlib.Core.Logic.{◌≢◌}
use mathlib.Core.List.{List, [], ◌∷◌, ◌++◌, map, append-nil, append_assoc}
use mathlib.Core.Option.{Option, none, some}
use native.Mathlib.Omega.{arith}
use native.Mathlib.Decide.{dec_le}

module _ {ℓ} {A : Type ℓ} where
  abbrev pub length : List A → ℕ
  length [] = 0
  length (x ∷ xs) = suc (length xs)

  abbrev pub get_elem? : List A → ℕ → Option A
  get_elem? [] i = none
  get_elem? (x ∷ xs) zero = some x
  get_elem? (x ∷ xs) (suc i) = get_elem? xs i

  -- A write out of bounds changes nothing.
  abbrev pub set : List A → ℕ → A → List A
  set [] i v = []
  set (x ∷ xs) zero v = v ∷ xs
  set (x ∷ xs) (suc i) v = x ∷ set xs i v

  pub length-append : (xs ys : List A) → length (xs ++ ys) ≡ length xs + length ys
  length-append [] ys = omega arith
  length-append (x ∷ xs) ys = omega (arith, length-append xs ys)

module _ {ℓ} {A : Type ℓ} where
  pub length-set : (xs : List A) (i : ℕ) (v : A) → length (set xs i v) ≡ length xs
  length-set [] i v = refl
  length-set (x ∷ xs) zero v = refl
  length-set (x ∷ xs) (suc i) v = ap suc (length-set xs i v)

  pub get_elem?-set_self :
      (xs : List A) (i : ℕ) (v : A) → i < length xs → get_elem? (set xs i v) i ≡ some v
  get_elem?-set_self [] i v h = elim h [ ]
  get_elem?-set_self (x ∷ xs) zero v h = refl
  get_elem?-set_self (x ∷ xs) (suc i) v h = get_elem?-set_self xs i v (omega arith)

  pub get_elem?-set_ne :
      (xs : List A) {i j : ℕ} (v : A) → i ≢ j → get_elem? (set xs i v) j ≡ get_elem? xs j
  get_elem?-set_ne [] v h = refl
  get_elem?-set_ne (x ∷ xs) {i = zero} {j = zero} v h = absurd (h refl)
  get_elem?-set_ne (x ∷ xs) {i = zero} {j = suc j} v h = refl
  get_elem?-set_ne (x ∷ xs) {i = suc i} {j = zero} v h = refl
  get_elem?-set_ne (x ∷ xs) {i = suc i} {j = suc j} v h = get_elem?-set_ne xs v (λ e. h (ap suc e))

module _ {ℓ} {A : Type ℓ} where
  abbrev pub get_or : List A → ℕ → A → A
  get_or [] i d = d
  get_or (x ∷ xs) zero d = x
  get_or (x ∷ xs) (suc i) d = get_or xs i d

  abbrev pub take : ℕ → List A → List A
  take zero xs = []
  take (suc n) [] = []
  take (suc n) (x ∷ xs) = x ∷ take n xs

  abbrev pub drop : ℕ → List A → List A
  drop zero xs = xs
  drop (suc n) [] = []
  drop (suc n) (x ∷ xs) = drop n xs

  abbrev pub replicate : ℕ → A → List A
  replicate zero a = []
  replicate (suc n) a = a ∷ replicate n a

  pub take-append-drop : (n : ℕ) (xs : List A) → take n xs ++ drop n xs ≡ xs
  take-append-drop zero xs = refl
  take-append-drop (suc n) [] = refl
  take-append-drop (suc n) (x ∷ xs) = rw (take-append-drop n xs)

  pub length-take : (n : ℕ) (xs : List A) → length (take n xs) ≡ min n (length xs)
  length-take zero xs = omega arith
  length-take (suc n) [] = omega arith
  length-take (suc n) (x ∷ xs) = omega (arith, length-take n xs)

  pub length-drop : (n : ℕ) (xs : List A) → length (drop n xs) ≡ length xs - n
  length-drop zero xs = omega arith
  length-drop (suc n) [] = omega arith
  length-drop (suc n) (x ∷ xs) = omega (arith, length-drop n xs)

  pub length-replicate : (n : ℕ) (a : A) → length (replicate n a) ≡ n
  length-replicate zero a = refl
  length-replicate (suc n) a = ap suc (length-replicate n a)

  pub length-map {κ} : {B : Type κ} (xs : List A) (f : A → B) → length (map f xs) ≡ length xs
  length-map [] f = refl
  length-map (x ∷ xs) f = ap suc (length-map xs f)

-- The last n elements; all of a shorter list.
module _ {ℓ} {A : Type ℓ} where
  abbrev pub keep_last : ℕ → List A → List A
  keep_last n xs = drop (length xs - n) xs

  drop-drop : (k : ℕ) (xs : List A) → drop 1 (drop k xs) ≡ drop (suc k) xs
  drop-drop zero xs = refl
  drop-drop (suc k) [] = refl
  drop-drop (suc k) (x ∷ xs) = drop-drop k xs

  pub drop-append : (k : ℕ) (xs ys : List A) → k ≤ length xs → drop k (xs ++ ys) ≡ drop k xs ++ ys
  drop-append zero xs ys h = refl
  drop-append (suc k) [] ys h = absurd (omega arith)
  drop-append (suc k) (x ∷ xs) ys h = drop-append k xs ys (omega arith)

  pub length-keep_last : (n : ℕ) (xs : List A) → length (keep_last n xs) ≡ min n (length xs)
  length-keep_last n xs = omega (arith, length-drop (length xs - n) xs)

  pub keep_last_all : (n : ℕ) (xs : List A) → length xs ≤ n → keep_last n xs ≡ xs
  keep_last_all n xs h = let e : length xs - n ≡ 0 = omega arith in rw e

  -- One more element drops the oldest of a full list, and nothing of a shorter one.
  pub keep_last-snoc_full :
      (n : ℕ) (xs : List A) (y : A)
      → length xs ≡ suc n
      → keep_last (suc n) (xs ++ y ∷ []) ≡ drop 1 xs ++ y ∷ []
  keep_last-snoc_full n xs y h =
      let e : length (xs ++ y ∷ []) - suc n ≡ 1 = omega (arith, length-append xs (y ∷ [])) in
      rw e (drop-append 1 xs (y ∷ []) (omega arith))

  keep_last-suc :
      (n k : ℕ) (xs : List A) (y : A)
      → length xs ≡ n + k
      → keep_last n (xs ++ y ∷ []) ≡ drop 1 (drop k xs ++ y ∷ [])
  keep_last-suc n k xs y h =
      let e : length (xs ++ y ∷ []) - n ≡ suc k = omega (arith, length-append xs (y ∷ [])) in
      rw (e, ← drop-append k xs (y ∷ []) (omega arith)) (sym (drop-drop k (xs ++ y ∷ [])))

  -- So the last n of a growing list are kept one step at a time.
  pub keep_last-step :
      (n : ℕ) (xs : List A) (y : A)
      → keep_last n (keep_last n xs ++ y ∷ []) ≡ keep_last n (xs ++ y ∷ [])
  keep_last-step n xs y = elim (dec_le (length xs) n) [
    | yes h ↦ rw (keep_last_all n xs h)
    | no h ↦
        let k : ℕ = length xs - n in
        let kept : length (drop k xs) ≡ n = omega (arith, length-drop k xs) in
        let e : length (drop k xs ++ y ∷ []) - n ≡ 1 =
          omega (arith, length-append (drop k xs) (y ∷ [])) in
        rw (e, keep_last-suc n k xs y (omega arith))
  ]

  pub keep_last-append :
      (n : ℕ) (xs ys : List A) → keep_last n (keep_last n xs ++ ys) ≡ keep_last n (xs ++ ys)
  keep_last-append n xs [] =
      rw (append-nil (keep_last n xs), append-nil xs)
        (keep_last_all n (keep_last n xs) (omega (arith, length-keep_last n xs)))
  keep_last-append n xs (y ∷ ys) =
      keep_last n (keep_last n xs ++ y ∷ ys)
      ≡⟨ ap (keep_last n) (sym (append_assoc (keep_last n xs) (y ∷ []) ys)) ⟩
        keep_last n ((keep_last n xs ++ y ∷ []) ++ ys)
      ≡⟨ sym (keep_last-append n (keep_last n xs ++ y ∷ []) ys) ⟩
        keep_last n (keep_last n (keep_last n xs ++ y ∷ []) ++ ys)
      ≡⟨ ap (λ zs. keep_last n (zs ++ ys)) (keep_last-step n xs y) ⟩
        keep_last n (keep_last n (xs ++ y ∷ []) ++ ys)
      ≡⟨ keep_last-append n (xs ++ y ∷ []) ys ⟩ keep_last n ((xs ++ y ∷ []) ++ ys)
      ≡⟨ ap (keep_last n) (append_assoc xs (y ∷ []) ys) ⟩ keep_last n (xs ++ y ∷ ys) ∎

  pub drop_prefix : (xs ys : List A) → drop (length xs) (xs ++ ys) ≡ ys
  drop_prefix [] ys = refl
  drop_prefix (x ∷ xs) ys = drop_prefix xs ys

  pub take_all : (n : ℕ) (xs : List A) → length xs ≤ n → take n xs ≡ xs
  take_all zero [] h = refl
  take_all zero (x ∷ xs) h = absurd (omega arith)
  take_all (suc n) [] h = refl
  take_all (suc n) (x ∷ xs) h = ap (◌∷◌ x) (take_all n xs (omega arith))

  pub drop_all : (n : ℕ) (xs : List A) → length xs ≤ n → drop n xs ≡ []
  drop_all zero [] h = refl
  drop_all zero (x ∷ xs) h = absurd (omega arith)
  drop_all (suc n) [] h = refl
  drop_all (suc n) (x ∷ xs) h = drop_all n xs (omega arith)
