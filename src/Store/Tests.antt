-- ===== src/Store/Tests.antt =====
-- Runs on devices whose codes clash (internal/store).
use quantix_cnnector_go.Prelude.{◌≡◌, refl, true, none, some, [], ◌∷◌, inr, List}
use quantix_cnnector_go.Prelude.Text.{codes, eq_bytes, to_upper, trim_space, decimal}
use quantix_cnnector_go.Value.{end}
use quantix_cnnector_go.Store.{
  Device, free_code, build_default_device_code, normalize_device_code, match_code,
  ensure_device_code_and_category,
}
use quantix_cnnector_go.Store.Ensure.{Rights, ensure_device_code_and_category-Rights}

abbrev first : Device
first = record {
  id = 1;
  device_code = codes " a1";
  device_category = codes "oven";
  name = codes "x";
  protocol_template_id = 1;
  connection_params = end;
  template_variables = end;
  poll_interval = 0;
  enabled = true;
  created_at = [];
  updated_at = [];
}

abbrev devices : List Device
devices = first ∷ record first { id = 2; device_code = codes "A1" } ∷ []

clash :
    (free_code (codes "A1" ∷ []) (codes "A1") ≡ some (codes "A1-1"))
    × (build_default_device_code 42 ≡ codes "DEV-000042")
    × (normalize_device_code (codes " a1") ≡ inr (codes "A1"))
unfolding free_code build_default_device_code normalize_device_code eq_bytes to_upper trim_space
    decimal match_code
clash = (refl, refl, refl)

ensure_device_code_and_category-Rights_example :
    Rights [] devices (ensure_device_code_and_category (λ d. none) (inr devices))
ensure_device_code_and_category-Rights_example =
    ensure_device_code_and_category-Rights (λ d. none) devices
