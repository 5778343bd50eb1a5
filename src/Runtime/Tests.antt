-- ===== src/Runtime/Tests.antt =====
-- A message of a state (internal/service/runtime_state.go).
use quantix_cnnector_go.Prelude.{◌≡◌, refl, some}
use quantix_cnnector_go.Prelude.Text.{codes, eq_bytes}
use quantix_cnnector_go.Value.{string, Fields, end, field, Libs}
use quantix_cnnector_go.Value.Maps.{get?, set}
use quantix_cnnector_go.Runtime.{
  RuntimeState, new_runtime_state, to_message, safe_string, add_missing,
}

-- A payload that tries to state a status of its own.
abbrev forged : Fields
forged =
    field (codes "status") (string (codes "fine"))
      (field (codes "barcode") (string (codes "A1")) end)

abbrev state : RuntimeState
state = record (new_runtime_state 7 (codes "scale") (codes "S1") (codes "weight")) {
  payload = forged;
}

status_wins :
    (lib : Libs) → get? (to_message lib state) (codes "status") ≡ some (string (codes "offline"))
unfolding to_message new_runtime_state get? safe_string eq_bytes add_missing set
status_wins lib = refl
