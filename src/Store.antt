-- ===== src/Store.antt =====
-- internal/store: the codes and categories of devices (models.go), and how they are put right when the
-- database is opened (db.go: ensureDeviceCodeAndCategory). The database is a parameter.
pub mod Codes
pub mod Fresh
pub mod Ensure
mod Tests
use quantix_cnnector_go.Prelude.{
  ℕ, zero, suc, ◌+◌, ◌-◌, ◌<◌, Bool, true, false, ◌&&◌, ◌||◌, not, Option, none, some, List, [],
  ◌∷◌, ◌++◌, length, take, replicate, ltb, leb, ◌==◌, if◌then◌else◌, ◌⊎◌, inl, inr,
}
use quantix_cnnector_go.Prelude.Text.{
  Bytes, codes, eq_bytes, trim_space, to_upper, to_lower, decimal,
}
use quantix_cnnector_go.Value.{Fields, Error, errorf, Float}
use quantix_cnnector_go.Config.Mappings.{is_empty}

pub record Device : Type 0 where
  pub id : ℕ
  pub device_code : Bytes
  pub device_category : Bytes
  pub name : Bytes
  pub protocol_template_id : ℕ
  pub connection_params : Fields
  pub template_variables : Fields
  pub poll_interval : Float
  pub enabled : Bool
  pub created_at : Bytes
  pub updated_at : Bytes

-- ^[A-Z0-9][A-Z0-9_-]{0,63}$
abbrev pub is_code_start : ℕ → Bool
is_code_start c = (leb b'A' c && leb c b'Z') || (leb b'0' c && leb c b'9')

abbrev pub is_code_byte : ℕ → Bool
is_code_byte c = is_code_start c || c == b'_' || c == b'-'

abbrev pub all_bytes : (ℕ → Bool) → Bytes → Bool
all_bytes p [] = true
all_bytes p (c ∷ s) = p c && all_bytes p s

unfoldable pub match_code : Bytes → Bool
match_code [] = false
match_code (c ∷ s) = is_code_start c && all_bytes is_code_byte s && leb (length s) 63

unfoldable pub normalize_device_code : Bytes → Error ⊎ Bytes
unfolding match_code
normalize_device_code value =
    let code = to_upper (trim_space value) in
    if is_empty code
    then inl (errorf (codes "device_code is required"))
    else if match_code code
    then inr code
    else inl (errorf (codes "device_code must match ^[A-Z0-9][A-Z0-9_-]{0,63}$"))

abbrev pub is_category : Bytes → Bool
is_category c =
    eq_bytes c (codes "weight")
    || eq_bytes c (codes "printer_tsc")
    || eq_bytes c (codes "scanner")
    || eq_bytes c (codes "serial_board")

abbrev pub bad_category : Error
bad_category =
    errorf (codes "device_category must be one of [printer_tsc scanner serial_board weight]")

unfoldable pub normalize_device_category : Bytes → Error ⊎ Bytes
normalize_device_category value =
    let category = to_lower (trim_space value) in
    if is_empty category
    then inr (codes "weight")
    else if is_category category
    then inr category
    else inl bad_category

-- fmt.Sprintf("DEV-%06d", id)
unfoldable pub build_default_device_code : ℕ → Bytes
build_default_device_code id =
    let digits = decimal id in codes "DEV-" ++ (replicate (6 - length digits) b'0' ++ digits)

abbrev pub or_else : Error ⊎ Bytes → Bytes → Bytes
or_else (inl e) fallback = fallback
or_else (inr s) fallback = s

-- The candidate with a suffix: the code, cut so that 64 bytes are enough, and the suffix.
abbrev pub cut_for : Bytes → ℕ → Bytes
cut_for code room = if ltb 64 (length code + room) then take (64 - room) code else code

unfoldable pub with_suffix : Bytes → ℕ → Bytes
with_suffix code suffix = let sfx = b'-' ∷ decimal suffix in cut_for code (length sfx) ++ sfx

abbrev pub is_used : Bytes → List Bytes → Bool
is_used c [] = false
is_used c (u ∷ used) = eq_bytes u c || is_used c used

-- The inner loop, on fuel: none where it does not end.
unfoldable pub find_free : ℕ → List Bytes → Bytes → Bytes → ℕ → Option Bytes
unfolding with_suffix
find_free zero used code candidate suffix = none
find_free (suc fuel) used code candidate suffix =
    let next = find_free fuel used code (with_suffix code suffix) (suc suffix) in
    if is_used candidate used then next else some candidate

-- Two more turns than there are codes in use.
unfoldable pub free_code : List Bytes → Bytes → Option Bytes
unfolding find_free
free_code used code = find_free (suc (suc (length used))) used code code 1

-- `update` is the error of writing a row.
module _ (update : Device → Option Error) where
  abbrev pub code_of : Device → Bytes
  code_of d = or_else (normalize_device_code d.device_code) (build_default_device_code d.id)

  abbrev pub category_of : Device → Bytes
  category_of d = or_else (normalize_device_category d.device_category) (codes "weight")

  abbrev pub righted : Device → Bytes → Device
  righted d c = record d { device_code = c; device_category = category_of d }

  abbrev needs_write : Device → Bytes → Bool
  needs_write d c =
      not (eq_bytes d.device_code c) || not (eq_bytes d.device_category (category_of d))

  abbrev pub write_error : Device → Bytes → Option Error
  write_error d c = if needs_write d c then update (righted d c) else none

  abbrev pub kept_on :
      Device → Option (Option Error × List Device) → Option (Option Error × List Device)
  kept_on d none = none
  kept_on d (some (e, rows)) = some (e, d ∷ rows)

  abbrev pub after_write :
      Device
      → Device
      → List Device
      → Option Error
      → Option (Option Error × List Device)
      → Option (Option Error × List Device)
  after_write d d' devices (some e) rest = some (some e, d ∷ devices)
  after_write d d' devices none rest = kept_on d' rest

  abbrev pub with_code :
      Device
      → List Device
      → Option Bytes
      → (Bytes → Option (Option Error × List Device))
      → Option (Option Error × List Device)
  with_code d devices none rest = none
  with_code d devices (some c) rest = after_write d (righted d c) devices (write_error d c) (rest c)

  -- The outer loop: an error, if there is one, and the rows as they stand then.
  unfoldable pub ensure_from : List Bytes → List Device → Option (Option Error × List Device)
  unfolding free_code build_default_device_code normalize_device_code normalize_device_category
  ensure_from used [] = some (none, [])
  ensure_from used (d ∷ devices) =
      with_code d devices (free_code used (code_of d))
        (λ (c : Bytes). ensure_from (c ∷ used) devices)

  -- `found` is what Find gives.
  unfoldable pub ensure_device_code_and_category :
      Error ⊎ List Device → Option (Option Error × List Device)
  unfolding ensure_from
  ensure_device_code_and_category (inl e) = some (some e, [])
  ensure_device_code_and_category (inr devices) = ensure_from [] devices
