-- ===== src/Api/Devices.antt =====
-- internal/api/devices.go: the handlers of devices, by id and by code, over a database with states S and a
-- manager with states M.
pub mod Coded
pub mod Connection
pub mod Routes
pub mod Rows
pub mod Stored
mod Tests
use quantix_cnnector_go.Prelude.{
  ℕ, Bool, true, false, ◌&&◌, ◌||◌, not, Option, none, some, List, [], ◌∷◌, ◌^◌, ◌+◌, ◌*◌, ltb, leb,
  if◌then◌else◌, ◌⊎◌, inl, inr,
}
use quantix_cnnector_go.Prelude.Int.{pos}
use quantix_cnnector_go.Prelude.Text.{Bytes, codes, to_lower, contains, trim_space}
use quantix_cnnector_go.Value.{
  Value, null, bool, uint, float64, string, object, items, Items, nil, cons, Fields, end, field,
  Libs, Float, is_zero_float, Result, ok, err, panic, Error,
}
use quantix_cnnector_go.Value.Maps.{clone, set}
use quantix_cnnector_go.Store.{Device, normalize_device_code, normalize_device_category, or_else}
use quantix_cnnector_go.Api.{Response, detail, answer, invalid_id}
use quantix_cnnector_go.Api.Protocols.{or_old}
use quantix_cnnector_go.Api.Codes.{validate_device_code, validate_device_category}

pub record DeviceCreate : Type 0 where
  pub device_code : Bytes
  pub device_category : Bytes
  pub name : Bytes
  pub protocol_template_id : ℕ
  pub connection_params : Fields
  pub template_variables : Fields
  pub poll_interval : Float
  pub enabled : Option Bool

pub record DeviceUpdate : Type 0 where
  pub device_code : Option Bytes
  pub device_category : Option Bytes
  pub name : Option Bytes
  pub protocol_template_id : Option ℕ
  pub connection_params : Option Fields
  pub template_variables : Option Fields
  pub poll_interval : Option Float
  pub enabled : Option Bool

pub record ExecuteStepRequest : Type 0 where
  pub step_id : Bytes
  pub params : Fields

-- The calls of gorm on devices; `by_code` gives nothing for a record that is not found. `create` and
-- `save` give the row as it is stored.
pub record DeviceDb (S : Type 0) : Type 0 where
  pub find : S → Error ⊎ List Device
  pub first : S → ℕ → Option Device
  pub by_code : S → Bytes → Error ⊎ Option Device
  pub has_template : S → ℕ → Bool
  pub create : S → Device → (Error ⊎ Device) × S
  pub save : S → Device → (Error ⊎ Device) × S
  pub delete : S → ℕ → S

-- The manager as the handlers use it; its errors of a reload and a removal are ignored.
pub record Devices (S M : Type 0) : Type 0 where
  pub reload : S → M → ℕ → M
  pub remove : M → ℕ → M
  pub execute : M → ℕ → Bytes → Fields → Result Fields × M
  pub snapshot : M → ℕ → Fields
  pub snapshot? : M → ℕ → Option Fields

unfoldable pub device_to_map : Device → Fields
device_to_map d = field (codes "id") (uint d.id) (
    field (codes "device_code") (string d.device_code) (
      field (codes "device_category") (string d.device_category) (
        field (codes "name") (string d.name) (
          field (codes "protocol_template_id") (uint d.protocol_template_id) (
            field (codes "connection_params") (object (clone d.connection_params)) (
              field (codes "template_variables") (object (clone d.template_variables)) (
                field (codes "poll_interval") (float64 d.poll_interval) (
                  field (codes "enabled") (bool d.enabled) (
                    field (codes "created_at") (string d.created_at)
                      (field (codes "updated_at") (string d.updated_at) end))))))))))

-- `f <= 0` of a float64: a zero, or a negative number that is not NaN
abbrev pub not_positive : Float → Bool
not_positive f = is_zero_float f || (leb (2 ^ 63) f && leb f (2 ^ 63 + 2047 * 2 ^ 52))

abbrev pub no_template : Response
no_template = detail 404 (codes "Protocol template not found")

-- The checks of createDevice and updateDeviceRow, in their order.
abbrev pub checked {ℓ} : {A : Type ℓ} → Option Error → Response ⊎ A → Response ⊎ A
checked none next = next
checked (some e) next = inl (detail 400 e.text)

module _ (lib : Libs) (has_template : ℕ → Bool) where
  unfoldable pub created_device : DeviceCreate → Response ⊎ Device
  created_device req =
      let made : Device = record {
        id = 0;
        device_code = or_else (normalize_device_code req.device_code) [];
        device_category = or_else (normalize_device_category req.device_category) [];
        name = req.name;
        protocol_template_id = req.protocol_template_id;
        connection_params = clone req.connection_params;
        template_variables = clone req.template_variables;
        poll_interval =
            if not_positive req.poll_interval then lib.float_of_int (pos 1) else req.poll_interval;
        enabled = or_old req.enabled true;
        created_at = [];
        updated_at = [];
      } in
      checked (validate_device_code req.device_code) (
        checked (validate_device_category req.device_category)
          (if has_template req.protocol_template_id then inr made else inl no_template))

  abbrev pub new_code : Option Bytes → Device → Response ⊎ Device
  new_code none row = inr row
  new_code (some c) row =
      checked (validate_device_code c)
        (inr (record row { device_code = or_else (normalize_device_code c) [] }))

  abbrev pub new_category : Option Bytes → Device → Response ⊎ Device
  new_category none row = inr row
  new_category (some c) row =
      checked (validate_device_category c)
        (inr (record row { device_category = or_else (normalize_device_category c) [] }))

  abbrev pub new_template : Option ℕ → Device → Response ⊎ Device
  new_template none row = inr row
  new_template (some id) row =
      if has_template id then inr (record row { protocol_template_id = id }) else inl no_template

  abbrev cloned_or : Option Fields → Fields → Fields
  cloned_or none old = old
  cloned_or (some m) old = clone m

  abbrev pub other_fields : DeviceUpdate → Device → Device
  other_fields req row = record row {
    connection_params = cloned_or req.connection_params row.connection_params;
    template_variables = cloned_or req.template_variables row.template_variables;
    poll_interval = or_old req.poll_interval row.poll_interval;
    enabled = or_old req.enabled row.enabled;
  }

  abbrev pub and_then : Response ⊎ Device → (Device → Response ⊎ Device) → Response ⊎ Device
  and_then (inl r) next = inl r
  and_then (inr row) next = next row

  -- The row that updateDeviceRow saves.
  unfoldable pub changed_device : DeviceUpdate → Device → Response ⊎ Device
  changed_device req row = and_then (new_code req.device_code row) (λ (a : Device).
      and_then (new_category req.device_category a) (λ (b : Device).
        and_then
          (new_template req.protocol_template_id (record b { name = or_old req.name b.name }))
          (λ (c : Device). inr (other_fields req c))))

-- The answer to an error of the database.
unfoldable pub conflict : Error → Response
conflict e =
    let text = to_lower e.text in
    if contains (codes "device_code") text
    then detail 409 (codes "Device code already exists")
    else if contains (codes "name") text
    then detail 409 (codes "Device name already exists")
    else detail 409 (codes "Device unique constraint violated")

-- The answer to an error of a step on request.
unfoldable pub step_error : Error → Response
step_error e =
    if contains (codes "not manual") e.text
    then detail 403 e.text
    else if contains (codes "not found") (to_lower e.text)
    then detail 404 e.text
    else detail 400 e.text

abbrev pub device_not_found : Response
device_not_found = detail 404 (codes "Device not found")

module _ (lib : Libs) {S M : Type 0} (db : DeviceDb S) (manager : Devices S M)
    (parse_uint : Bytes → Option ℕ) where
  -- What an answer leaves behind; a panic, which gin recovers, has no answer.
  abbrev pub Served : Type 0
  Served = Result Response × (S × M)

  abbrev pub found : Option Device → Response ⊎ Device
  found none = inl device_not_found
  found (some row) = inr row

  abbrev pub with_id : S → Option ℕ → Response ⊎ Device
  with_id s none = inl invalid_id
  with_id s (some id) = found (db.first s id)

  unfoldable pub find_by_id : S → Bytes → Response ⊎ Device
  find_by_id s param = with_id s (parse_uint (trim_space param))

  abbrev pub looked_up : Error ⊎ Option Device → Response ⊎ Device
  looked_up (inl e) = inl (detail 500 e.text)
  looked_up (inr row) = found row

  abbrev pub with_normal : S → Error ⊎ Bytes → Response ⊎ Device
  with_normal s (inl e) = inl (detail 400 e.text)
  with_normal s (inr code) = looked_up (db.by_code s code)

  -- getDeviceByCodeInternal
  unfoldable pub find_by_code : S → Bytes → Response ⊎ Device
  find_by_code s code = with_normal s (normalize_device_code code)

  -- A handler on the row that was found, by id or by code.
  abbrev pub on_device : S × M → Response ⊎ Device → (Device → Served) → Served
  on_device w (inl r) act = (ok r, w)
  on_device w (inr row) act = act row

  unfoldable pub get_device : S × M → Response ⊎ Device → Served
  unfolding device_to_map
  get_device (s, m) row =
      on_device (s, m) row
        (λ (d : Device). (
          ok (answer (set (device_to_map d) (codes "runtime") (object (manager.snapshot m d.id)))),
          (s, m),
        ))

  -- A row that was stored is loaded by the manager.
  abbrev pub stored : M → (Error ⊎ Device) × S → Served
  stored m (inl e, s) = (ok (conflict e), (s, m))
  stored m (inr d, s) = (ok (answer (device_to_map d)), (s, manager.reload s m d.id))

  abbrev pub created : S × M → Response ⊎ Device → Served
  created (s, m) (inl r) = (ok r, (s, m))
  created (s, m) (inr d) = stored m (db.create s d)

  unfoldable pub create_device : S × M → Error ⊎ DeviceCreate → Served
  unfolding created_device conflict device_to_map
  create_device w (inl e) = (ok (detail 400 e.text), w)
  create_device (s, m) (inr req) = created (s, m) (created_device lib (db.has_template s) req)

  abbrev pub changed_to : S × M → Response ⊎ Device → Served
  changed_to (s, m) (inl r) = (ok r, (s, m))
  changed_to (s, m) (inr d) = stored m (db.save s d)

  -- updateDeviceRow
  unfoldable pub update_device_row : S × M → Error ⊎ DeviceUpdate → Device → Served
  unfolding changed_device conflict device_to_map
  update_device_row w (inl e) row = (ok (detail 400 e.text), w)
  update_device_row (s, m) (inr req) row =
      changed_to (s, m) (changed_device lib (db.has_template s) req row)

  unfoldable pub update_device : S × M → Response ⊎ Device → Error ⊎ DeviceUpdate → Served
  unfolding update_device_row
  update_device w row body = on_device w row (update_device_row w body)

  unfoldable pub delete_device : S × M → Response ⊎ Device → Served
  delete_device (s, m) row =
      on_device (s, m) row
        (λ (d : Device). (
          ok (answer (field (codes "ok") (bool true) end)),
          (db.delete s d.id, manager.remove m d.id),
        ))

  -- enableDevice and disableDevice; an error of the database is ignored.
  abbrev pub row_or : Device → (Error ⊎ Device) × S → Device × S
  row_or d (inl e, s) = (d, s)
  row_or d (inr d', s) = (d', s)

  unfoldable pub set_enabled : Bool → S × M → Response ⊎ Device → Served
  unfolding device_to_map
  set_enabled on (s, m) row =
      on_device (s, m) row
        (λ (d : Device).
          let d' : Device = record d { enabled = on } in
          let after : Device × S = row_or d' (db.save s d') in
          (ok (answer (device_to_map after.0)), (after.1, manager.reload after.1 m d.id)))

  abbrev pub executed : S → Result Fields × M → Served
  executed s (ok m', m) = (ok (answer m'), (s, m))
  executed s (err e, m) = (ok (step_error e), (s, m))
  executed s (panic, m) = (panic, (s, m))

  -- executeDeviceRow
  unfoldable pub execute_device_row : S × M → Error ⊎ ExecuteStepRequest → Device → Served
  unfolding step_error
  execute_device_row w (inl e) d = (ok (detail 400 e.text), w)
  execute_device_row (s, m) (inr req) d =
      if d.enabled
      then executed s (manager.execute m d.id req.step_id req.params)
      else (ok (detail 400 (codes "Device is disabled")), (s, m))

  unfoldable pub execute_device : S × M → Response ⊎ Device → Error ⊎ ExecuteStepRequest → Served
  unfolding execute_device_row
  execute_device w row body = on_device w row (execute_device_row w body)
