-- ===== src/Manager/Tests.antt =====
-- Runs of the device manager (internal/service/device_manager.go) over a driver that counts its calls.
use quantix_cnnector_go.Prelude.{ℕ, ◌*◌, ◌≡◌, refl, true, false, [], ◌∷◌}
use quantix_cnnector_go.Prelude.Text.{codes, eq_bytes, to_lower, has_prefix}
use quantix_cnnector_go.Value.{
  string, object, Fields, end, Error, errorf, value_or, as_items, as_object,
}
use quantix_cnnector_go.Value.Maps.{get}
use quantix_cnnector_go.Value.Sprint.{sprint}
use quantix_cnnector_go.Value.Toy.{toy}
use quantix_cnnector_go.Executor.Step.{single, execute_step}
use quantix_cnnector_go.Executor.Poll.{run_poll_steps}
use quantix_cnnector_go.Manager.Units.{has_poll_steps}
use quantix_cnnector_go.Manager.Loop.{
  connect_phase, setup_phase, run_phase, poll_phase, Loop, cycle, second,
}
use quantix_cnnector_go.Manager.Loop.Published.{Tells, cycle-Tells}
use quantix_cnnector_go.Manager.Loop.Backoff.{Turn, waits_from, runtime_loop, runtime_loop-outage}
use quantix_cnnector_go.Manager.Sample.{line, step_of, scale, loop_at, moment}

cycle-Tells_example :
    Tells toy
      (loop_at second false)
      (cycle toy
        (line true)
        (scale (step_of (string (codes "fail"))))
        moment
        (loop_at second false)).0
cycle-Tells_example =
    cycle-Tells toy (line true) (scale (step_of (string (codes "fail")))) moment
      (loop_at second false)

-- The turn in which a call of the driver panics.
abbrev panicked : Loop ℕ
panicked =
    (cycle toy (line true) (scale (step_of (string (codes "break")))) moment
      (loop_at second true)).0

panicked-locked : panicked.io_locked ≡ true
unfolding cycle connect_phase setup_phase run_phase eq_bytes to_lower has_poll_steps as_items get
    as_object sprint value_or poll_phase run_poll_steps execute_step has_prefix
panicked-locked = refl

abbrev running : Turn
running = record { stop_before = false; moment = moment; stop_in_wait = false }

abbrev stopped_then : Turn
stopped_then = record { stop_before = false; moment = moment; stop_in_wait = true }

runtime_loop-outage_example :
    (runtime_loop toy
      (line false)
      (scale (step_of (string (codes "break"))))
      (running ∷ stopped_then ∷ running ∷ [])
      (loop_at (4 * second) true)).0
    ≡ waits_from 2 (running ∷ stopped_then ∷ running ∷ [])
runtime_loop-outage_example =
    runtime_loop-outage toy (line false) (scale (step_of (string (codes "break"))))
      (running ∷ stopped_then ∷ running ∷ []) (loop_at (4 * second) true) 2 (λ d. refl) (λ d. refl)
      refl refl

abbrev no_answer : Error
no_answer = errorf (codes "no answer")

abbrev results : Fields
results = single (codes "r") (object (single (codes "result") (object end)))
