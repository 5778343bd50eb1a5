-- ===== src/Api/Devices/Rows.antt =====
-- The rows of the database as the handlers of devices find and write them (internal/api/devices.go).
use quantix_cnnector_go.Prelude.{
  ℕ, ◌≡◌, refl, sym, subst, true, Option, none, some, Option-cases, ◌⊎◌, inl, inr,
}
use quantix_cnnector_go.Prelude.Text.{Bytes, trim_space}
use quantix_cnnector_go.Value.{Libs, Error}
use quantix_cnnector_go.Store.{Device, match_code, is_category, normalize_device_code}
use quantix_cnnector_go.Api.Devices.{
  DeviceDb, Devices, find_by_id, find_by_code, with_id, with_normal, looked_up, found,
}
use quantix_cnnector_go.Api.Devices.Coded.{IsCoded, Holds}

-- Two rows with the same code and category.
pub record SameCode (a b : Device) : Type 0 where
  pub code : a.device_code ≡ b.device_code
  pub category : a.device_category ≡ b.device_category

-- How gorm treats rows: a row that is there after a write was there before, or is what was written.
pub record IsStore {S : Type 0} (db : DeviceDb S) : Type 0 where
  pub looks_up :
      (s : S) (code : Bytes) (row : Device)
      → db.by_code s code ≡ inr (some row)
      → db.first s row.id ≡ some row
  pub writes :
      (s : S) (new : Device) (i : ℕ) (row : Device)
      → db.first (db.create s new).1 i ≡ some row
      → (db.first s i ≡ some row) ⊎ SameCode row new
  pub rewrites :
      (s : S) (new : Device) (i : ℕ) (row : Device)
      → db.first (db.save s new).1 i ≡ some row
      → (db.first s i ≡ some row) ⊎ SameCode row new
  pub erases :
      (s : S) (j i : ℕ) (row : Device)
      → db.first (db.delete s j) i ≡ some row
      → db.first s i ≡ some row

-- The codes of all devices have the form of the pattern, and their categories are known.
abbrev pub AllCoded : {S : Type 0} → DeviceDb S → S → Type 0
AllCoded db s = (i : ℕ) (row : Device) → db.first s i ≡ some row → IsCoded row

SameCode-IsCoded : (a b : Device) → SameCode a b → IsCoded b → IsCoded a
SameCode-IsCoded a b m c = record {
  coded = subst (λ x. match_code x ≡ true) (sym m.code) c.coded;
  sorted = subst (λ x. is_category x ≡ true) (sym m.category) c.sorted;
}

module _ (lib : Libs) {S M : Type 0} (db : DeviceDb S) (manager : Devices S M)
    (parse_uint : Bytes → Option ℕ) (law : IsStore db) where
  pub create-AllCoded :
      (s : S) (new : Device) → IsCoded new → AllCoded db s → AllCoded db (db.create s new).1
  create-AllCoded s new c all i row h = elim (law.writes s new i row h) [
    | inl old ↦ all i row old
    | inr m ↦ SameCode-IsCoded row new m c
  ]

  pub save-AllCoded :
      (s : S) (new : Device) → IsCoded new → AllCoded db s → AllCoded db (db.save s new).1
  save-AllCoded s new c all i row h = elim (law.rewrites s new i row h) [
    | inl old ↦ all i row old
    | inr m ↦ SameCode-IsCoded row new m c
  ]

  found-Holds :
      (s : S) (i : ℕ)
      → AllCoded db s
      → Holds IsCoded (found lib db manager parse_uint (db.first s i))
  found-Holds s i all = elim (Option-cases (db.first s i)) [
    | inl e ↦ rw (e, found) tt
    | inr (row, e) ↦ rw (e, found) (all i row e)
  ]

  pub find_by_id-Holds :
      (s : S) (param : Bytes)
      → AllCoded db s
      → Holds IsCoded (find_by_id lib db manager parse_uint s param)
  unfolding find_by_id
  find_by_id-Holds s param all = parsed (parse_uint (trim_space param))
    where
      parsed : (id : Option ℕ) → Holds IsCoded (with_id lib db manager parse_uint s id)
      parsed none = tt
      parsed (some i) = found-Holds s i all

  looked_up-Holds :
      (s : S) (code : Bytes) (r : Error ⊎ Option Device)
      → AllCoded db s
      → db.by_code s code ≡ r
      → Holds IsCoded (looked_up lib db manager parse_uint r)
  looked_up-Holds s code (inl e) all h = tt
  looked_up-Holds s code (inr none) all h = tt
  looked_up-Holds s code (inr (some row)) all h = all row.id row (law.looks_up s code row h)

  pub find_by_code-Holds :
      (s : S) (code : Bytes)
      → AllCoded db s
      → Holds IsCoded (find_by_code lib db manager parse_uint s code)
  unfolding find_by_code
  find_by_code-Holds s code all = normal (normalize_device_code code)
    where
      normal : (r : Error ⊎ Bytes) → Holds IsCoded (with_normal lib db manager parse_uint s r)
      normal (inl e) = tt
      normal (inr c) = looked_up-Holds s c (db.by_code s c) all refl
