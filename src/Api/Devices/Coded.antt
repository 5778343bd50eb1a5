-- ===== src/Api/Devices/Coded.antt =====
-- The devices that the handlers store (createDevice, updateDeviceRow).
use quantix_cnnector_go.Prelude.{
  ℕ, ◌≡◌, refl, subst, Bool, true, false, Option, none, some, ◌⊎◌, inl, inr, [], if◌then◌else◌,
}
use quantix_cnnector_go.Prelude.Text.{Bytes, codes, eq_bytes, trim_space, to_lower}
use quantix_cnnector_go.Value.{Libs, Error}
use quantix_cnnector_go.Config.Mappings.{is_empty}
use quantix_cnnector_go.Store.{
  Device, match_code, is_category, bad_category, normalize_device_code, normalize_device_category,
  or_else,
}
use quantix_cnnector_go.Store.Codes.{normalize_device_code-again}
use quantix_cnnector_go.Api.{Response}
use quantix_cnnector_go.Api.Codes.{
  validate_device_code, validate_device_category, Agrees, validate_device_code-Agrees,
  validate_device_category-Agrees,
}
use quantix_cnnector_go.Api.Protocols.{or_old}
use quantix_cnnector_go.Api.Devices.{
  DeviceCreate, DeviceUpdate, created_device, changed_device, checked, new_code, new_category,
  new_template, and_then, no_template,
}

-- The code has the form of the pattern, and the category is a known one.
pub record IsCoded (d : Device) : Type 0 where
  pub coded : match_code d.device_code ≡ true
  pub sorted : is_category d.device_category ≡ true

abbrev pub Holds : (Device → Type 0) → Response ⊎ Device → Type 0
Holds P (inl r) = Unit {0}
Holds P (inr d) = P d

normal_code :
    (value : Bytes) (r : Error ⊎ Bytes)
    → normalize_device_code value ≡ r
    → Agrees none r
    → match_code (or_else r []) ≡ true
normal_code value (inl e) h a = absurd a
normal_code value (inr c) h a = (normalize_device_code-again value c h).0

valid_code :
    (value : Bytes)
    → validate_device_code value ≡ none
    → match_code (or_else (normalize_device_code value) []) ≡ true
valid_code value h =
    normal_code value (normalize_device_code value) refl
      (subst (λ e. Agrees e (normalize_device_code value)) h (validate_device_code-Agrees value))

category-cases :
    (empty known : Bool) (c : Bytes) (e : Error)
    → (known ≡ true → is_category c ≡ true)
    → Agrees none (if empty then inr (codes "weight") else if known then inr c else inl e)
    → is_category
        (or_else (if empty then inr (codes "weight") else if known then inr c else inl e) [])
      ≡ true
unfolding eq_bytes
category-cases true known c e h a = refl
category-cases false true c e h a = h refl
category-cases false false c e h a = absurd a

valid_category :
    (value : Bytes)
    → validate_device_category value ≡ none
    → is_category (or_else (normalize_device_category value) []) ≡ true
unfolding normalize_device_category
valid_category value h =
    let c : Bytes = to_lower (trim_space value) in
    category-cases (is_empty c) (is_category c) c bad_category (λ k. k)
      (subst (λ e. Agrees e (normalize_device_category value)) h
        (validate_device_category-Agrees value))

checked-Holds :
    (P : Device → Type 0) (e : Option Error) (next : Response ⊎ Device)
    → (e ≡ none → Holds P next)
    → Holds P (checked e next)
checked-Holds P none next h = h refl
checked-Holds P (some e) next h = tt

and_then-Holds :
    (lib : Libs) (has_template : ℕ → Bool) (P : Device → Type 0) (r : Response ⊎ Device)
    (next : Device → Response ⊎ Device)
    → Holds P r
    → ((d : Device) → P d → Holds P (next d))
    → Holds P (and_then lib has_template r next)
and_then-Holds lib has_template P (inl r) next h k = tt
and_then-Holds lib has_template P (inr d) next h k = k d h

templated :
    (P : Device → Type 0) (b : Bool) (d : Device)
    → P d
    → Holds P (if b then inr d else inl no_template)
templated P true d h = h
templated P false d h = tt

module _ (lib : Libs) (has_template : ℕ → Bool) where
  pub created_device-IsCoded :
      (req : DeviceCreate) → Holds IsCoded (created_device lib has_template req)
  unfolding created_device
  created_device-IsCoded req =
      checked-Holds IsCoded (validate_device_code req.device_code) _ (λ code.
        checked-Holds IsCoded (validate_device_category req.device_category) _ (λ category.
          templated IsCoded (has_template req.protocol_template_id) _ (record {
            coded = valid_code req.device_code code;
            sorted = valid_category req.device_category category;
          })))

  new_code-IsCoded :
      (code : Option Bytes) (d : Device)
      → IsCoded d
      → Holds IsCoded (new_code lib has_template code d)
  new_code-IsCoded none d i = i
  new_code-IsCoded (some c) d i =
      checked-Holds IsCoded (validate_device_code c)
        (inr (record d { device_code = or_else (normalize_device_code c) [] }))
        (λ h. record { coded = valid_code c h; sorted = i.sorted })

  new_category-IsCoded :
      (category : Option Bytes) (d : Device)
      → IsCoded d
      → Holds IsCoded (new_category lib has_template category d)
  new_category-IsCoded none d i = i
  new_category-IsCoded (some c) d i =
      checked-Holds IsCoded (validate_device_category c)
        (inr (record d { device_category = or_else (normalize_device_category c) [] }))
        (λ h. record { coded = i.coded; sorted = valid_category c h })

  new_template-IsCoded :
      (id : Option ℕ) (d : Device) → IsCoded d → Holds IsCoded (new_template lib has_template id d)
  new_template-IsCoded none d i = i
  new_template-IsCoded (some id) d i =
      templated IsCoded (has_template id) (record d { protocol_template_id = id })
        (record { coded = i.coded; sorted = i.sorted })

  pub changed_device-IsCoded :
      (req : DeviceUpdate) (row : Device)
      → IsCoded row
      → Holds IsCoded (changed_device lib has_template req row)
  unfolding changed_device
  changed_device-IsCoded req row i =
      and_then-Holds lib has_template IsCoded (new_code lib has_template req.device_code row) _
        (new_code-IsCoded req.device_code row i)
        (λ a ia.
          and_then-Holds lib has_template IsCoded
            (new_category lib has_template req.device_category a) _
            (new_category-IsCoded req.device_category a ia)
            (λ b ib.
              and_then-Holds lib has_template IsCoded
                (new_template lib has_template req.protocol_template_id
                  (record b { name = or_old req.name b.name }))
                _
                (new_template-IsCoded req.protocol_template_id
                  (record b { name = or_old req.name b.name })
                  (record { coded = ib.coded; sorted = ib.sorted }))
                (λ c ic. record { coded = ic.coded; sorted = ic.sorted })))

  -- A device that the handlers give the database to store has a code of the form that the pattern
  -- allows and a known category: a new one always, a changed one if it had them before.
  pub device-IsCoded :
      (create : DeviceCreate) (change : DeviceUpdate) (row : Device)
      → IsCoded row
      → Holds IsCoded (created_device lib has_template create)
        × Holds IsCoded (changed_device lib has_template change row)
  device-IsCoded create change row i =
      (created_device-IsCoded create, changed_device-IsCoded change row i)
