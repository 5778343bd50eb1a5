-- ===== src/Config/Mappings.antt =====
-- internal/config/config.go: the template mappings, a `map[string]string` in the order a loop
-- over it takes.
use quantix_cnnector_go.Prelude.{
  ◌≡◌, refl, sym, ◌∙◌, subst, Bool, true, false, Bool-cases, ◌||◌, inl, inr, List, [], ◌∷◌, ◌++◌,
  arith, append_assoc, append-nil, if◌then◌else◌,
}
use quantix_cnnector_go.Prelude.Text.{Bytes, eq_bytes, eq_bytes_iff, trim_space}
use quantix_cnnector_go.Prelude.Text.Trim.{trim_space-trim_space}

abbrev pub StringMap : Type 0
StringMap = List (Bytes × Bytes)

-- m[key]: a missing key reads as the empty string
unfoldable pub lookup : StringMap → Bytes → Bytes
lookup [] k = []
lookup ((j, v) ∷ m) k = if eq_bytes j k then v else lookup m k

-- m[key] = val
unfoldable pub put : StringMap → Bytes → Bytes → StringMap
put [] k v = (k, v) ∷ []
put ((j, w) ∷ m) k v = if eq_bytes j k then (k, v) ∷ m else (j, w) ∷ put m k v

abbrev pub is_empty : Bytes → Bool
is_empty [] = true
is_empty (c ∷ s) = false

-- The loop of normalizePrintAgentSettings; `cleaned` is what it has built.
unfoldable pub clean : StringMap → StringMap → StringMap
unfolding put
clean cleaned [] = cleaned
clean cleaned ((k, v) ∷ m) =
    let key = trim_space k in
    let val = trim_space v in
    clean (if is_empty key || is_empty val then cleaned else put cleaned key val) m

abbrev pub Lacks : Bytes → StringMap → Type 0
Lacks k [] = Unit {0}
Lacks k ((j, v) ∷ m) = (eq_bytes j k ≡ false) × Lacks k m

-- Trimmed keys and values, none of them empty, and each key once.
abbrev pub IsClean : StringMap → Type 0
IsClean [] = Unit {0}
IsClean ((k, v) ∷ m) =
    (trim_space k ≡ k)
    × (trim_space v ≡ v)
    × (is_empty k ≡ false)
    × (is_empty v ≡ false)
    × Lacks k m
    × IsClean m

put-Lacks : (m : StringMap) (k v j : Bytes) → Lacks j m → eq_bytes k j ≡ false → Lacks j (put m k v)
unfolding put
put-Lacks [] k v j h e = (e, tt)
put-Lacks ((i, w) ∷ m) k v j h e = elim (Bool-cases (eq_bytes i k)) [
  | inl hit ↦ rw hit (e, h.1)
  | inr miss ↦ rw miss (h.0, put-Lacks m k v j h.1 e)
]

Lacks-key : (m : StringMap) (i k : Bytes) → eq_bytes i k ≡ true → Lacks i m → Lacks k m
Lacks-key m i k e h = subst (λ x. Lacks x m) ((eq_bytes_iff i k).0 e) h

eq_bytes-false_sym : (j k : Bytes) → eq_bytes j k ≡ false → eq_bytes k j ≡ false
eq_bytes-false_sym j k h = ground (arith, eq_bytes_iff j k, eq_bytes_iff k j)

put-IsClean :
    (m : StringMap) (k v : Bytes)
    → trim_space k ≡ k
    → trim_space v ≡ v
    → is_empty k ≡ false
    → is_empty v ≡ false
    → IsClean m
    → IsClean (put m k v)
unfolding put
put-IsClean [] k v a b c d h = (a, b, c, d, tt, tt)
put-IsClean ((i, w) ∷ m) k v a b c d h = elim (Bool-cases (eq_bytes i k)) [
  | inl hit ↦ rw hit (a, b, c, d, Lacks-key m i k hit h.4, h.5)
  | inr miss ↦ rw miss (
    h.0,
    h.1,
    h.2,
    h.3,
    put-Lacks m k v i h.4 (eq_bytes-false_sym i k miss),
    put-IsClean m k v a b c d h.5,
  )
]

pub clean-IsClean : (cleaned m : StringMap) → IsClean cleaned → IsClean (clean cleaned m)
unfolding clean
clean-IsClean cleaned [] h = h
clean-IsClean cleaned ((k, v) ∷ m) h = elim (Bool-cases (is_empty (trim_space k))) [
  | inl no_key ↦ rw no_key (clean-IsClean cleaned m h)
  | inr key ↦ elim (Bool-cases (is_empty (trim_space v))) [
    | inl no_val ↦ rw (key, no_val) (clean-IsClean cleaned m h)
    | inr val ↦
        rw (key, val)
          (clean-IsClean (put cleaned (trim_space k) (trim_space v)) m (
            put-IsClean cleaned (trim_space k) (trim_space v) (trim_space-trim_space k)
              (trim_space-trim_space v) key val h))
  ]
]

-- A key that the map lacks goes to its end.
put-new : (m : StringMap) (k v : Bytes) → Lacks k m → put m k v ≡ m ++ (k, v) ∷ []
unfolding put
put-new [] k v h = refl
put-new ((i, w) ∷ m) k v h = rw (h.0, put-new m k v h.1) refl

-- No key of the second map is in the first.
abbrev Apart : StringMap → StringMap → Type 0
Apart m [] = Unit {0}
Apart m ((k, v) ∷ n) = Lacks k m × Apart m n

Lacks-snoc :
    (m : StringMap) (k v j : Bytes) → Lacks j m → eq_bytes k j ≡ false → Lacks j (m ++ (k, v) ∷ [])
Lacks-snoc [] k v j h e = (e, tt)
Lacks-snoc ((i, w) ∷ m) k v j h e = (h.0, Lacks-snoc m k v j h.1 e)

Apart-snoc : (m n : StringMap) (k v : Bytes) → Apart m n → Lacks k n → Apart (m ++ (k, v) ∷ []) n
Apart-snoc m [] k v h l = tt
Apart-snoc m ((j, w) ∷ n) k v h l =
    (Lacks-snoc m k v j h.0 (eq_bytes-false_sym j k l.0), Apart-snoc m n k v h.1 l.1)

-- A clean map is read through the loop as it stands.
clean_all : (m n : StringMap) → IsClean n → Apart m n → clean m n ≡ m ++ n
unfolding clean
clean_all m [] h a = sym (append-nil m)
clean_all m ((k, v) ∷ n) h a =
    rw (h.0, h.1, h.2, h.3, put-new m k v a.0)
      (clean_all (m ++ (k, v) ∷ []) n h.5 (Apart-snoc m n k v a.1 h.4)
        ∙ append_assoc m ((k, v) ∷ []) n)

Apart-nil : (n : StringMap) → Apart [] n
Apart-nil [] = tt
Apart-nil ((k, v) ∷ n) = (tt, Apart-nil n)

pub clean-clean : (m : StringMap) → clean [] (clean [] m) ≡ clean [] m
clean-clean m = clean_all [] (clean [] m) (clean-IsClean [] m tt) (Apart-nil (clean [] m))
