-- ===== src/Api/Devices/Tests.antt =====
-- Requests for devices over a database that has room for one (internal/api/devices.go).
use quantix_cnnector_go.Prelude.{
  ℕ, ◌≡◌, refl, ap, subst, true, Bool-cases, Option, none, some, List, [], ◌∷◌, ◌==◌, ==_iff,
  if◌then◌else◌, ◌⊎◌, inl, inr,
}
use quantix_cnnector_go.Prelude.Text.{Bytes, codes, eq_bytes}
use quantix_cnnector_go.Value.{end, ok, Error, errorf}
use quantix_cnnector_go.Value.Toy.{toy}
use quantix_cnnector_go.Store.{Device}
use quantix_cnnector_go.Api.Devices.{DeviceDb, Devices}
use quantix_cnnector_go.Api.Devices.Routes.{
  by_id, by_code, Request, creates, updates, disables, serve_all,
}
use quantix_cnnector_go.Api.Devices.Rows.{SameCode, IsStore, AllCoded}
use quantix_cnnector_go.Api.Devices.Stored.{serve_all-AllCoded}

abbrev Row : Type 0
Row = Option Device

abbrev first_row : Row → ℕ → Option Device
first_row none i = none
first_row (some d) i = if d.id == i then some d else none

abbrev row_by_code : Row → Bytes → Option Device
row_by_code none code = none
row_by_code (some d) code = if eq_bytes d.device_code code then some d else none

abbrev insert : Row → Device → (Error ⊎ Device) × Row
insert none d = (inr d, some d)
insert (some old) d = (inl (errorf (codes "full")), some old)

abbrev row : DeviceDb Row
row = record {
  find = λ s. inr [];
  first = first_row;
  by_code = λ s code. inr (row_by_code s code);
  has_template = λ s i. true;
  create = insert;
  save = λ s d. (inr d, some d);
  delete = λ s i. none;
}

first_row-some : (d x : Device) (i : ℕ) → first_row (some d) i ≡ some x → x ≡ d
first_row-some d x i h = elim (Bool-cases (d.id == i)) [
  | inl e ↦ let same : some d ≡ some x = rw e at h in cc
  | inr e ↦ let none_some : none ≡ some x = rw e at h in cc
]

row_by_code-first :
    (s : Row) (code : Bytes) (x : Device) → row_by_code s code ≡ some x → first_row s x.id ≡ some x
row_by_code-first none code x h = cc
row_by_code-first (some d) code x h = elim (Bool-cases (eq_bytes d.device_code code)) [
  | inl e ↦
      let here : some d ≡ some x = rw e at h in
      let same : d ≡ x = cc in
      subst (λ y. first_row (some d) y.id ≡ some y) same (rw ((==_iff d.id d.id).1 refl) refl)
  | inr e ↦ let none_some : none ≡ some x = rw e at h in cc
]

same : (d x : Device) → x ≡ d → SameCode x d
same d x e = record { code = ap (λ y. y.device_code) e; category = ap (λ y. y.device_category) e }

inserted :
    (s : Row) (d : Device) (i : ℕ) (x : Device)
    → first_row (insert s d).1 i ≡ some x
    → (first_row s i ≡ some x) ⊎ SameCode x d
inserted none d i x h = inr (same d x (first_row-some d x i h))
inserted (some old) d i x h = inl h

row-IsStore : IsStore row
row-IsStore = record {
  looks_up = λ s code x h. row_by_code-first s code x (cc);
  writes = inserted;
  rewrites = λ s d i x h. inr (same d x (first_row-some d x i h));
  erases = λ s j i x h. cc;
}

abbrev manager : Devices Row (List ℕ)
manager = record {
  reload = λ s m id. id ∷ m;
  remove = λ m id. [];
  execute = λ m id step ps. (ok end, m);
  snapshot = λ m id. end;
  snapshot? = λ m id. none;
}

abbrev requests : List Request
requests =
    creates (
      inr (record {
        device_code = codes " s-2 ";
        device_category = [];
        name = codes "hall";
        protocol_template_id = 0;
        connection_params = end;
        template_variables = end;
        poll_interval = 0;
        enabled = none;
      }))
    ∷ updates (by_code (codes "S-2")) (
        inr (record {
          device_code = some (codes "s_9");
          device_category = some (codes "Scanner");
          name = none;
          protocol_template_id = none;
          connection_params = none;
          template_variables = none;
          poll_interval = none;
          enabled = none;
        }))
    ∷ disables (by_id (codes "0"))
    ∷ []

serve_all-AllCoded_example :
    AllCoded row (serve_all toy row manager (λ s. some 0) (none, []) requests).0
serve_all-AllCoded_example =
    serve_all-AllCoded toy row manager (λ s. some 0) row-IsStore (none, []) requests (λ i x h. cc)
