-- ===== src/Store/Codes.antt =====
-- Codes that were normalized (NormalizeDeviceCode).
use quantix_cnnector_go.Prelude.{
  ℕ, ◌≡◌, refl, subst, Bool, true, false, inl, inr, [], ◌∷◌, arith, if◌then◌else◌,
}
use quantix_cnnector_go.Prelude.Text.{
  Bytes, codes, trim_space, trim_left, trim_right, is_space, to_upper, keep_unless,
}
use quantix_cnnector_go.Value.{Error, errorf}
use quantix_cnnector_go.Config.Mappings.{is_empty}
use quantix_cnnector_go.Store.{is_code_byte, all_bytes, match_code, normalize_device_code}

to_upper-code : (s : Bytes) → all_bytes is_code_byte s ≡ true → to_upper s ≡ s
unfolding to_upper
to_upper-code [] h = refl
to_upper-code (c ∷ s) h = ground (arith, to_upper-code s)

trim_right-code : (s : Bytes) → all_bytes is_code_byte s ≡ true → trim_right is_space s ≡ s
unfolding trim_right is_space
trim_right-code [] h = refl
trim_right-code (c ∷ s) h =
    let visible : is_space c ≡ false = ground (arith, h) in
    let rest : all_bytes is_code_byte s ≡ true = ground (arith, h) in
    rw (trim_right-code s rest, visible) (kept c s)
  where
    kept : (x : ℕ) (t : Bytes) → keep_unless false x t ≡ x ∷ t
    kept x [] = refl
    kept x (y ∷ t) = refl

all_code : (c : ℕ) (s : Bytes) → match_code (c ∷ s) ≡ true → all_bytes is_code_byte (c ∷ s) ≡ true
unfolding match_code
all_code c s h = ground (arith, h)

trim_space-code : (s : Bytes) → match_code s ≡ true → trim_space s ≡ s
unfolding trim_space trim_left is_space
trim_space-code [] h = refl
trim_space-code (c ∷ s) h =
    let all : all_bytes is_code_byte (c ∷ s) ≡ true = all_code c s h in
    let visible : is_space c ≡ false = ground (arith, all) in
    rw visible (trim_right-code (c ∷ s) all)

normalize-code : (s : Bytes) → match_code s ≡ true → normalize_device_code s ≡ inr s
unfolding normalize_device_code
normalize-code [] h = ground (arith, h)
normalize-code (c ∷ s) h =
    rw (trim_space-code (c ∷ s) h, to_upper-code (c ∷ s) (all_code c s h), h) refl

-- The three cases of normalizing.
code-cases :
    (empty good : Bool) (e f : Error) (code c : Bytes)
    → (if empty then inl e else if good then inr code else inl f) ≡ inr c
    → (good ≡ true) × (code ≡ c)
code-cases true good e f code c h = absurd (distinct h)
  where
    distinct : inl e ≡ inr c → ⊥
    distinct p = cc
code-cases false true e f code c h = (refl, cc)
code-cases false false e f code c h = absurd (distinct h)
  where
    distinct : inl f ≡ inr c → ⊥
    distinct p = cc

-- A code that a user may write in any case and with spaces around it is stored in a form that the
-- pattern allows, at most 64 bytes long, and that is found again: it is its own normal form.
pub normalize_device_code-again :
    (value c : Bytes)
    → normalize_device_code value ≡ inr c
    → (match_code c ≡ true) × (normalize_device_code c ≡ inr c)
unfolding normalize_device_code
normalize_device_code-again value c h =
    let code : Bytes = to_upper (trim_space value) in
    let k =
      code-cases (is_empty code) (match_code code) (errorf (codes "device_code is required"))
        (errorf (codes "device_code must match ^[A-Z0-9][A-Z0-9_-]{0,63}$")) code c h in
    let good : match_code c ≡ true = subst (λ x. match_code x ≡ true) k.1 k.0 in
    (good, normalize-code c good)
