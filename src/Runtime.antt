-- ===== src/Runtime.antt =====
-- internal/service/runtime_state.go: what is known of a device, and the message that tells it.
-- A time is a number of nanoseconds.
pub mod Message
mod Tests
use quantix_cnnector_go.Prelude.{
  ℕ, Bool, true, false, Option, none, some, List, [], ◌∷◌, if◌then◌else◌,
}
use quantix_cnnector_go.Prelude.Text.{Bytes, codes, eq_bytes}
use quantix_cnnector_go.Value.{
  Value, null, uint, float_ptr, string, object, Fields, end, field, Float, Libs,
}
use quantix_cnnector_go.Value.Maps.{get?, set, clone}

pub record RuntimeState : Type 0 where
  pub device_id : ℕ
  pub device_name : Bytes
  pub device_code : Bytes
  pub device_category : Bytes
  pub event_type : Bytes
  pub payload : Fields
  pub status : Bytes
  pub weight : Option Float
  pub unit : Bytes
  pub last_update : Option ℕ
  pub error : Option Bytes
  pub step_results : Fields

unfoldable pub safe_string : Bytes → Bytes → Bytes
safe_string v fallback = if eq_bytes v [] then fallback else v

unfoldable pub new_runtime_state : ℕ → Bytes → Bytes → Bytes → RuntimeState
new_runtime_state id name code category = record {
  device_id = id;
  device_name = name;
  device_code = code;
  device_category = category;
  event_type = codes "weight_update";
  payload = end;
  status = codes "offline";
  weight = none;
  unit = codes "kg";
  last_update = none;
  error = none;
  step_results = end;
}

abbrev or_null : Option Bytes → Value
or_null none = null
or_null (some s) = string s

abbrev time_or_null : Libs → Option ℕ → Value
time_or_null lib none = null
time_or_null lib (some t) = string (lib.show_time t)

-- The map literal of ToMessage.
abbrev pub standard_fields : Libs → RuntimeState → Fields
standard_fields lib r =
    field (codes "type") (string (safe_string r.event_type (codes "weight_update"))) (
      field (codes "device_id") (uint r.device_id) (
        field (codes "device_name") (string r.device_name) (
          field (codes "device_code") (string r.device_code) (
            field (codes "device_category") (string r.device_category) (
              field (codes "weight") (float_ptr r.weight) (
                field (codes "unit") (string (safe_string r.unit (codes "kg"))) (
                  field (codes "payload") (object (clone r.payload)) (
                    field (codes "timestamp") (time_or_null lib r.last_update) (
                      field (codes "status") (string (safe_string r.status (codes "offline")))
                        (field (codes "error") (or_null r.error) end))))))))))

-- for k, v := range payload { if _, ok := out[k]; !ok { out[k] = v } }
unfoldable pub add_missing : Fields → Fields → Fields
add_missing out end = out
add_missing out (field k v m) =
    add_missing (elim (get? out k) [ none ↦ set out k v | some w ↦ out ]) m

unfoldable pub to_message : Libs → RuntimeState → Fields
to_message lib r = add_missing (standard_fields lib r) r.payload

unfoldable pub mark_online : ℕ → RuntimeState → Option Float → Bytes → Bytes → Fields → RuntimeState
mark_online now r weight unit event_type payload = record r {
  status = codes "online";
  weight = weight;
  unit = safe_string unit (codes "kg");
  event_type = safe_string event_type (codes "weight_update");
  payload = clone payload;
  error = none;
  last_update = some now;
}

unfoldable pub mark_offline : ℕ → RuntimeState → Bytes → RuntimeState
mark_offline now r err_text = record r {
  status = codes "offline";
  event_type = codes "weight_update";
  payload = end;
  error = if eq_bytes err_text [] then none else some err_text;
  last_update = some now;
}

unfoldable pub mark_error : ℕ → RuntimeState → Bytes → RuntimeState
mark_error now r err_text = record r {
  status = codes "error";
  event_type = codes "weight_update";
  payload = end;
  error = some err_text;
  last_update = some now;
}
