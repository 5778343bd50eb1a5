-- ===== src/Manager/Device.antt =====
-- internal/service/device_manager.go: a device with its template, the texts of its errors
-- (formatError, formatException, runtimeEndpoint), and what an output says of its weight.
use quantix_cnnector_go.Prelude.{ℕ, Option, [], ◌++◌, if◌then◌else◌}
use quantix_cnnector_go.Prelude.Int.{ℤ}
use quantix_cnnector_go.Prelude.Text.{Bytes, codes, eq_bytes, trim_space, to_lower}
use quantix_cnnector_go.Value.{Value, string, Fields, Float, Libs, Error, value_or}
use quantix_cnnector_go.Value.Maps.{get}
use quantix_cnnector_go.Value.Sprint.{sprint}
use quantix_cnnector_go.Manager.Units.{to_float_ptr, normalize_unit, recover_weight_unit}

-- What the runtime reads of store.Device and store.ProtocolTemplate, which do not change while it runs.
-- The poll interval is in nanoseconds.
pub record Device : Type 0 where
  pub id : ℕ
  pub name : Bytes
  pub device_code : Bytes
  pub category : Bytes
  pub protocol_type : Bytes
  pub template : Fields
  pub connection_params : Fields
  pub template_variables : Fields
  pub poll_interval : ℤ

module _ (lib : Libs) (dev : Device) where
  abbrev param_text : Bytes → Bytes
  param_text k = trim_space (sprint lib (value_or (get dev.connection_params k) (string [])))

  pub runtime_endpoint : Bytes
  runtime_endpoint =
      let host = param_text (codes "host") in
      let port = param_text (codes "port") in
      if eq_bytes host []
      then (if eq_bytes port [] then codes "-" else port)
      else if eq_bytes port []
      then host
      else host ++ codes ":" ++ port

  pub format_error : Bytes → Bytes → Bytes → Bytes
  unfolding runtime_endpoint
  format_error stage err_type err_text =
      codes "stage="
      ++ stage
      ++ codes "; protocol="
      ++ to_lower dev.protocol_type
      ++ codes "; endpoint="
      ++ runtime_endpoint
      ++ codes "; error_type="
      ++ err_type
      ++ codes "; error="
      ++ err_text

  pub format_exception : Bytes → Error → Bytes
  unfolding format_error
  format_exception stage e = format_error stage e.go_type e.text

-- The weight and the unit of an output, with a fallback for each.
unfoldable pub reading : Libs → Fields → Value → Value → Option Float × Bytes
reading lib output weight unit =
    recover_weight_unit lib output
      (to_float_ptr lib (value_or (get output (codes "weight")) weight))
      (normalize_unit (sprint lib (value_or (get output (codes "unit")) unit)))
