-- ===== src/Manager/Sample.antt =====
-- A driver, a device and a runtime for test runs of the device manager.
use quantix_cnnector_go.Prelude.{ℕ, ◌+◌, ◌*◌, Bool, false, none, [], ◌∷◌, if◌then◌else◌}
use quantix_cnnector_go.Prelude.Int.{pos}
use quantix_cnnector_go.Prelude.Text.{codes, eq_bytes}
use quantix_cnnector_go.Value.{
  Value, string, items, object, nil, cons, end, field, ok, err, panic, errorf,
}
use quantix_cnnector_go.Driver.{Driver}
use quantix_cnnector_go.Executor.Step.{single}
use quantix_cnnector_go.Metrics.{RuntimeMetrics}
use quantix_cnnector_go.Runtime.{RuntimeState}
use quantix_cnnector_go.Manager.Device.{Device}
use quantix_cnnector_go.Manager.Loop.{Loop, Moment, millis}

-- A driver that is or is not connected, and connects or not.
abbrev pub line : Bool → Driver ℕ
line up = record {
  connect = λ n. (up, n + 1);
  disconnect = λ n. n;
  is_connected = λ n. up;
  execute_action = λ n action params. (
    if eq_bytes action (codes "fail")
        then err (errorf (codes "no answer"))
        else if eq_bytes action (codes "break")
        then panic
        else ok (object params),
    n + 1,
  );
  last_error = λ n. [];
}

abbrev pub step_of : Value → Value
step_of action = object (field (codes "id") (string (codes "r")) (single (codes "action") action))

-- A device whose template has one poll step.
abbrev pub scale : Value → Device
scale step = record {
  id = 7;
  name = codes "scale";
  device_code = codes "S1";
  category = codes "weight";
  protocol_type = codes "tcp";
  template = single (codes "steps") (items (cons step nil));
  connection_params = end;
  template_variables = end;
  poll_interval = pos (500 * millis);
}

abbrev pub metrics : RuntimeMetrics
metrics = record {
  poll_cycles = 0;
  poll_errors = 0;
  mqtt_messages = 0;
  reconnects = 0;
  runtime_restarts = 0;
  published_events = 0;
  latency_ring = 0 ∷ 0 ∷ 0 ∷ [];
  lat_index = 0;
  lat_filled = false;
}

abbrev pub state : RuntimeState
state = record {
  device_id = 7;
  device_name = codes "scale";
  device_code = codes "S1";
  device_category = codes "weight";
  event_type = codes "weight_update";
  payload = end;
  status = codes "offline";
  weight = none;
  unit = codes "kg";
  last_update = none;
  error = none;
  step_results = end;
}

abbrev pub loop_at : ℕ → Bool → Loop ℕ
loop_at backoff setup_done = record {
  driver = 0;
  state = state;
  scan = record { last_code = []; last_at = none };
  metrics = metrics;
  published = [];
  io_locked = false;
  backoff = backoff;
  setup_done = setup_done;
}

abbrev pub moment : Moment
moment = record { canceled = false; now = 5; latency = pos 3; elapsed = pos 4 }
