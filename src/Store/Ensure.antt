-- ===== src/Store/Ensure.antt =====
-- The codes of devices after the database was opened (ensureDeviceCodeAndCategory).
use quantix_cnnector_go.Prelude.{
  suc, ◌≡◌, refl, sym, ap, subst, true, false, Bool-cases, Option, none, some, List, [], ◌∷◌,
  length, inl, inr,
}
use quantix_cnnector_go.Prelude.Text.{Bytes, codes, eq_bytes, trim_space, to_lower}
use quantix_cnnector_go.Value.{Error}
use quantix_cnnector_go.Config.Mappings.{is_empty}
use quantix_cnnector_go.Store.{
  Device, is_used, code_of, is_category, or_else, normalize_device_category, righted, write_error,
  after_write, with_code, ensure_from, ensure_device_code_and_category,
}
use quantix_cnnector_go.Store.Fresh.{free_code-found, free_code-unused}

-- A run that ends.
abbrev pub Ends : Option (Option Error × List Device) → Type 0
Ends none = ⊥
Ends (some r) = Unit {0}

-- The codes are distinct and none of those in use, and the categories are known ones.
abbrev pub AllRight : List Bytes → List Device → Type 0
AllRight used [] = Unit {0}
AllRight used (d ∷ rows) =
    (is_used d.device_code used ≡ false)
    × (is_category d.device_category ≡ true)
    × AllRight (d.device_code ∷ used) rows

-- A run without an error has put all rows right, and has as many as before.
abbrev pub Rights : List Bytes → List Device → Option (Option Error × List Device) → Type 0
Rights used devices none = ⊥
Rights used devices (some (some e, rows)) = length rows ≡ length devices
Rights used devices (some (none, rows)) = AllRight used rows × (length rows ≡ length devices)

category_of-is_category :
    (s : Bytes) → is_category (or_else (normalize_device_category s) (codes "weight")) ≡ true
unfolding normalize_device_category eq_bytes
category_of-is_category s = elim (Bool-cases (is_empty (to_lower (trim_space s)))) [
  | inl e ↦ rw e refl
  | inr e ↦ elim (Bool-cases (is_category (to_lower (trim_space s)))) [
    | inl k ↦ rw (e, k) k
    | inr k ↦ rw (e, k) refl
  ]
]

module _ (update : Device → Option Error) where
  after_write-Rights :
      (used : List Bytes) (d : Device) (c : Bytes) (devices : List Device) (e : Option Error)
      (rest : Option (Option Error × List Device))
      → is_used c used ≡ false
      → Rights (c ∷ used) devices rest
      → Rights used (d ∷ devices) (after_write update d (righted update d c) devices e rest)
  after_write-Rights used d c devices (some e) rest u h = refl
  after_write-Rights used d c devices none none u h = h
  after_write-Rights used d c devices none (some (some e, rows)) u h = ap suc h
  after_write-Rights used d c devices none (some (none, rows)) u h =
      ((u, category_of-is_category d.device_category, h.0), ap suc h.1)

  ensure_from-Rights :
      (used : List Bytes) (devices : List Device)
      → Rights used devices (ensure_from update used devices)
  unfolding ensure_from
  ensure_from-Rights used [] = (tt, refl)
  ensure_from-Rights used (d ∷ devices) =
      let found = free_code-found used (code_of update d) in
      let c : Bytes = found.0 in
      subst
        (λ (o : Option Bytes).
          Rights used (d ∷ devices)
            (with_code update d devices o (λ (x : Bytes). ensure_from update (x ∷ used) devices)))
        (sym found.1)
        (after_write-Rights used d c devices (write_error update d c)
          (ensure_from update (c ∷ used) devices)
          (free_code-unused used (code_of update d) c found.1)
          (ensure_from-Rights (c ∷ used) devices))

  -- Putting the codes right ends, whatever codes the rows have and however writing them fails: the
  -- search for a code that is not in use finds one. If no write fails, all codes are distinct and
  -- all categories known; either way there are as many rows as before.
  pub ensure_device_code_and_category-Rights :
      (devices : List Device)
      → Rights [] devices (ensure_device_code_and_category update (inr devices))
  unfolding ensure_device_code_and_category
  ensure_device_code_and_category-Rights devices = ensure_from-Rights [] devices
