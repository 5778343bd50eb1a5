-- ===== src/Store/Fresh.antt =====
-- A code that is not in use is found (ensureDeviceCodeAndCategory).
use quantix_cnnector_go.Prelude.{
  ℕ, zero, suc, ◌+◌, ◌-◌, ◌*◌, ◌/◌, ◌%◌, ◌≤◌, ◌<◌, ◌≡◌, ◌≢◌, refl, ap, ◌∙◌, subst, Bool, true,
  false, Bool-cases, ◌||◌, Option, none, some, List, [], ◌∷◌, ◌++◌, map, length, length-map, ltb,
  ◌==◌, ==_iff, if◌then◌else◌, ◌⊎◌, inl, inr, Option-cases, arith, ℕ_discrete,
}
use quantix_cnnector_go.Prelude.Text.{Bytes, eq_bytes, eq_bytes_iff, decimal, digits_from}
use quantix_cnnector_go.Store.{cut_for, with_suffix, is_used, find_free, free_code}

-- The number behind the last dash of a text.
abbrev read_from : ℕ → Bytes → ℕ
read_from n [] = n
read_from n (c ∷ s) = if c == b'-' then read_from 0 s else read_from (10 * n + (c - 48)) s

abbrev suffix_of : Bytes → ℕ
suffix_of s = read_from 0 s

read_from-dash : (n : ℕ) (s t : Bytes) → read_from n (s ++ b'-' ∷ t) ≡ read_from 0 t
read_from-dash n [] t = refl
read_from-dash n (c ∷ s) t = elim (Bool-cases (c == b'-')) [
  | inl e ↦ rw e (read_from-dash 0 s t)
  | inr e ↦ rw e (read_from-dash (10 * n + (c - 48)) s t)
]

digit : (n c : ℕ) (s : Bytes) → c < 10 → read_from n ((48 + c) ∷ s) ≡ read_from (10 * n + c) s
digit n c s h =
    let e : (48 + c == b'-') ≡ false = ground arith in
    let v : 48 + c - 48 ≡ c = omega arith in rw (e, v) refl

read_from-digits :
    (fuel n : ℕ) (acc : Bytes) → n < fuel → read_from 0 (digits_from fuel n acc) ≡ read_from n acc
unfolding digits_from
read_from-digits zero n acc h = absurd (omega arith)
read_from-digits (suc fuel) n acc h = elim (Bool-cases (ltb n 10)) [
  | inl e ↦ rw e (digit 0 n acc (ground (arith, e)) ∙ ap (λ k. read_from k acc) (omega arith))
  | inr e ↦
      let v : 10 * (n / 10) + n % 10 ≡ n = omega arith in
      rw e (
        read_from-digits fuel (n / 10) ((48 + n % 10) ∷ acc) (ground (arith, e))
        ∙ digit (n / 10) (n % 10) acc (omega arith)
        ∙ ap (λ k. read_from k acc) v)
]

suffix_of-with_suffix : (code : Bytes) (i : ℕ) → suffix_of (with_suffix code i) ≡ i
unfolding with_suffix decimal
suffix_of-with_suffix code i =
    read_from-dash 0 (cut_for code (length (b'-' ∷ digits_from (suc i) i [])))
      (digits_from (suc i) i [])
    ∙ read_from-digits (suc i) i [] (omega arith)

-- A list that holds 1, ..., n has n elements.
abbrev holds : ℕ → List ℕ → Bool
holds k [] = false
holds k (x ∷ xs) = x == k || holds k xs

abbrev without : ℕ → List ℕ → List ℕ
without k [] = []
without k (x ∷ xs) = if x == k then xs else x ∷ without k xs

length-without : (k : ℕ) (xs : List ℕ) → holds k xs ≡ true → length xs ≡ suc (length (without k xs))
length-without k [] h = absurd (distinct h)
  where
    distinct : false ≡ true → ⊥
    distinct p = cc
length-without k (x ∷ xs) h = elim (Bool-cases (x == k)) [
  | inl e ↦ rw e refl
  | inr e ↦
      let rest : holds k xs ≡ true = subst (λ b. (b || holds k xs) ≡ true) e h in
      rw e (ap suc (length-without k xs rest))
]

holds-without : (k j : ℕ) (xs : List ℕ) → j ≢ k → holds j xs ≡ true → holds j (without k xs) ≡ true
holds-without k j [] ne h = h
holds-without k j (x ∷ xs) ne h = elim (Bool-cases (x == k)) [
  | inl e ↦
      let miss : (x == j) ≡ false = ground (arith, e, ne) in
      rw e (subst (λ b. (b || holds j xs) ≡ true) miss h)
  | inr e ↦ elim (Bool-cases (x == j)) [
    | inl here ↦ rw (e, here) refl
    | inr there ↦
        rw (e, there) (holds-without k j xs ne (subst (λ b. (b || holds j xs) ≡ true) there h))
  ]
]

pigeonhole : (n : ℕ) (xs : List ℕ) → ((k : ℕ) → 1 ≤ k → k ≤ n → holds k xs ≡ true) → n ≤ length xs
pigeonhole zero xs h = omega arith
pigeonhole (suc n) xs h =
    let size = length-without (suc n) xs (h (suc n) (omega arith) (omega arith)) in
    let smaller = pigeonhole n (without (suc n) xs) (λ k low high.
      holds-without (suc n) k xs (λ e. absurd (omega arith)) (h k low (omega arith))) in
    omega (arith, size, smaller)

is_used-holds :
    (c : Bytes) (used : List Bytes)
    → is_used c used ≡ true
    → holds (suffix_of c) (map suffix_of used) ≡ true
is_used-holds c [] h = absurd (distinct h)
  where
    distinct : false ≡ true → ⊥
    distinct p = cc
is_used-holds c (u ∷ used) h = elim (Bool-cases (eq_bytes u c)) [
  | inl e ↦
      let same : suffix_of u ≡ suffix_of c = ap suffix_of ((eq_bytes_iff u c).0 e) in
      let hit : (suffix_of u == suffix_of c) ≡ true = (==_iff (suffix_of u) (suffix_of c)).1 same in
      rw hit refl
  | inr e ↦
      let rest = is_used-holds c used (subst (λ b. (b || is_used c used) ≡ true) e h) in
      ground (arith, rest)
]

-- A search that does not end has found every candidate in use.
turn-none :
    (b : Bool) (next : Option Bytes) (c : Bytes)
    → (if b then next else some c) ≡ none
    → (b ≡ true) × (next ≡ none)
turn-none true next c h = (refl, h)
turn-none false next c h = absurd (found h)
  where
    found : some c ≡ none → ⊥
    found p = cc

turn-some :
    (b : Bool) (next : Option Bytes) (c x : Bytes)
    → (if b then next else some c) ≡ some x
    → (next ≡ some x) ⊎ (b ≡ false) × (c ≡ x)
turn-some true next c x h = inl h
turn-some false next c x h = inr (refl, cc)

taken :
    (fuel : ℕ) (used : List Bytes) (code candidate : Bytes) (suffix : ℕ)
    → find_free (suc fuel) used code candidate suffix ≡ none
    → (is_used candidate used ≡ true)
      × (find_free fuel used code (with_suffix code suffix) (suc suffix) ≡ none)
unfolding find_free
taken fuel used code candidate suffix h =
    turn-none (is_used candidate used)
      (find_free fuel used code (with_suffix code suffix) (suc suffix)) candidate h

all_taken :
    (fuel : ℕ) (used : List Bytes) (code candidate : Bytes) (suffix k : ℕ)
    → find_free fuel used code candidate suffix ≡ none
    → suffix ≤ k
    → suc k < suffix + fuel
    → is_used (with_suffix code k) used ≡ true
all_taken zero used code candidate suffix k h low high = absurd (omega arith)
all_taken (suc zero) used code candidate suffix k h low high = absurd (omega arith)
all_taken (suc (suc fuel)) used code candidate suffix k h low high =
    let rest = (taken (suc fuel) used code candidate suffix h).1 in
    elim (ℕ_discrete suffix k) [
      | yes here ↦
          subst (λ i. is_used (with_suffix code i) used ≡ true) here
            (taken fuel used code (with_suffix code suffix) (suc suffix) rest).0
      | no there ↦
          all_taken (suc fuel) used code (with_suffix code suffix) (suc suffix) k rest (omega arith)
            (omega arith)
    ]

-- So there is an end to it: there are not as many codes in use as candidates.
free_code-none : (used : List Bytes) (code : Bytes) → free_code used code ≡ none → ⊥
unfolding free_code
free_code-none used code h =
    let many : suc (length used) ≤ length (map suffix_of used) =
      pigeonhole (suc (length used)) (map suffix_of used) (λ k low high.
        let u : is_used (with_suffix code k) used ≡ true =
          all_taken (suc (suc (length used))) used code code 1 k h low (omega arith) in
        subst (λ i. holds i (map suffix_of used) ≡ true) (suffix_of-with_suffix code k)
          (is_used-holds (with_suffix code k) used u)) in
    absurd (omega (arith, many, length-map used suffix_of))

pub free_code-found :
    (used : List Bytes) (code : Bytes) → (c : Bytes) × (free_code used code ≡ some c)
free_code-found used code = elim (Option-cases (free_code used code)) [
  | inl e ↦ absurd (free_code-none used code e)
  | inr (c, e) ↦ (c, e)
]

find_free-unused :
    (fuel : ℕ) (used : List Bytes) (code candidate : Bytes) (suffix : ℕ) (c : Bytes)
    → find_free fuel used code candidate suffix ≡ some c
    → is_used c used ≡ false
unfolding find_free
find_free-unused zero used code candidate suffix c h = absurd (missing h)
  where
    missing : none ≡ some c → ⊥
    missing p = cc
find_free-unused (suc fuel) used code candidate suffix c h =
    elim (turn-some (is_used candidate used)
      (find_free fuel used code (with_suffix code suffix) (suc suffix)) candidate c h) [
        | inl later ↦ find_free-unused fuel used code (with_suffix code suffix) (suc suffix) c later
        | inr (free, e) ↦ subst (λ x. is_used x used ≡ false) e free
      ]

pub free_code-unused :
    (used : List Bytes) (code c : Bytes) → free_code used code ≡ some c → is_used c used ≡ false
unfolding free_code
free_code-unused used code c h = find_free-unused (suc (suc (length used))) used code code 1 c h
