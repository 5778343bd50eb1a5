-- ===== src/Manager/Calls.antt =====
-- internal/service/device_manager.go: what else works on a runtime, under its ioMu: a message that arrives
-- (handleMqttMessage) and a step on request (ExecuteManualStep). Both unlock ioMu by defer.
use quantix_cnnector_go.Prelude.{
  ◌≡◌, refl, ◌∙◌, false, Option, none, some, ◌++◌, inl, inr, Bool-cases, if◌then◌else◌,
}
use quantix_cnnector_go.Prelude.Int.{ℤ}
use quantix_cnnector_go.Prelude.Text.{Bytes, codes, eq_bytes, trim_space}
use quantix_cnnector_go.Value.{
  Value, null, string, float_ptr, Fields, end, Libs, Float, Result, ok, err, panic, value_or,
  as_object,
}
use quantix_cnnector_go.Value.Maps.{get, set}
use quantix_cnnector_go.Driver.{Driver}
use quantix_cnnector_go.Executor.Poll.{result_entry}
use quantix_cnnector_go.Executor.Manual.{
  run_manual_step, run_message_handler, run_message_handler-driver,
}
use quantix_cnnector_go.Metrics.{
  RuntimeMetrics, inc_poll_cycle, inc_poll_error, inc_mqtt_message, inc_published_event,
  record_poll_latency,
}
use quantix_cnnector_go.Runtime.{mark_online}
use quantix_cnnector_go.Manager.Units.{
  normalize_category, event_type_for_category, build_runtime_payload, to_float_ptr,
  recover_weight_unit, raw_payload_text, to_float,
}
use quantix_cnnector_go.Manager.Device.{Device, reading}
use quantix_cnnector_go.Manager.Loop.{Loop, Moment, publish_state, report_error}
use quantix_cnnector_go.Manager.Loop.Published.{Quiet, Told, Tells, Result-cases, latency-published}

-- What a call comes to: its reply or error, a panic, or it blocks on ioMu.
pub data Called : Type 0 where
  replied : Result Fields → Called
  hung : Called

module _ (lib : Libs) {D : Type 0} (drv : Driver D) (dev : Device) where
  -- The state that an output leads to, and its message.
  unfoldable pub take_output : Moment → Fields → Value → Value → Loop D → Loop D
  take_output m output weight unit l =
      let (w, u) = reading lib output weight unit in
      publish_state lib (record l {
        state =
            mark_online m.now l.state w u
              (event_type_for_category (normalize_category dev.category))
              (build_runtime_payload output);
      })

  abbrev latest : Loop D → Result RuntimeMetrics → Loop D
  latest l (ok metrics) = record l { metrics = metrics }
  latest l (err e) = l
  latest l panic = l

  unfoldable pub handled : Moment → Fields → Fields → Loop D → Loop D
  handled m steps output l =
      let l' = take_output m output null (string (codes "kg")) (record l {
        metrics = inc_mqtt_message (inc_poll_cycle l.metrics);
        state = record l.state { step_results = steps };
      }) in
      latest l' (record_poll_latency l'.metrics m.latency)

  unfoldable pub handle_mqtt_message : Moment → Bytes → Bytes → Loop D → Loop D
  handle_mqtt_message m topic payload l =
      let (r, d) =
        run_message_handler lib drv m.canceled l.driver dev.template payload dev.template_variables
          l.state.step_results in
      let done : Loop D = elim r [
        | err e ↦
            report_error lib drv dev m (codes "mqtt_message:" ++ topic) e
              (record l { driver = d; metrics = inc_poll_error l.metrics })
        | ok (steps, output) ↦ handled m steps output (record l { driver = d })
        | panic ↦ record l { driver = d }
      ] in
      if l.io_locked then l else done

  abbrev or_empty : Option Fields → Fields
  or_empty none = end
  or_empty (some m) = m

  unfoldable pub execute_manual_step : Moment → Bytes → Fields → Loop D → Loop D × Called
  execute_manual_step m id overrides l =
      let (r, d) =
        run_manual_step lib drv m.canceled l.driver dev.template id dev.template_variables overrides
          l.state.step_results in
      let done : Loop D × Called = elim r [
        | err e ↦ (record l { driver = d }, replied (err e))
        | panic ↦ (record l { driver = d }, replied panic)
        | ok result ↦ (
          take_output m (or_empty (as_object (get result (codes "output"))))
              (float_ptr l.state.weight) (string l.state.unit)
              (record l {
                driver = d;
                state = record l.state {
                  step_results =
                      set l.state.step_results id (result_entry (get result (codes "result")));
                };
              }),
          replied (ok result),
        )
      ] in
      if l.io_locked then (l, hung) else done

  take_output-Told :
      (m : Moment) (output : Fields) (weight unit : Value) (l l' : Loop D)
      → Quiet lib l l'
      → Told lib l (take_output m output weight unit l')
  unfolding take_output publish_state inc_published_event
  take_output-Told m output weight unit l l' h = rw (h.0, h.1) (refl, refl)

  latest-Told :
      (l l' : Loop D) (d : ℤ) (r : Result RuntimeMetrics)
      → Told lib l l'
      → record_poll_latency l'.metrics d ≡ r
      → Told lib l (latest l' r)
  latest-Told l l' d (ok m) h q = (h.0, latency-published l'.metrics m d q ∙ h.1)
  latest-Told l l' d (err e) h q = h
  latest-Told l l' d panic h q = h

  latest-driver : (l : Loop D) (r : Result RuntimeMetrics) → (latest l r).driver ≡ l.driver
  latest-driver l (ok m) = refl
  latest-driver l (err e) = refl
  latest-driver l panic = refl

  handled-Told :
      (m : Moment) (steps output : Fields) (l l' : Loop D)
      → Quiet lib l l'
      → Told lib l (handled m steps output l') × ((handled m steps output l').driver ≡ l'.driver)
  unfolding handled inc_mqtt_message inc_poll_cycle take_output publish_state
  handled-Told m steps output l l' h =
      let l'' = take_output m output null (string (codes "kg")) (record l' {
        metrics = inc_mqtt_message (inc_poll_cycle l'.metrics);
        state = record l'.state { step_results = steps };
      }) in
      let told =
        take_output-Told m output null (string (codes "kg")) l
          (record l' {
            metrics = inc_mqtt_message (inc_poll_cycle l'.metrics);
            state = record l'.state { step_results = steps };
          })
          h in
      (
        latest-Told l l'' m.latency (record_poll_latency l''.metrics m.latency) told refl,
        latest-driver l'' (record_poll_latency l''.metrics m.latency),
      )

  -- A message that arrives at a runtime does not touch its driver, and tells the bus nothing, or one message,
  -- which says what the state says afterwards, on every branch: handled, refused or cut short.
  pub handle_mqtt_message-Tells :
      (m : Moment) (topic payload : Bytes) (l : Loop D)
      → ((handle_mqtt_message m topic payload l).driver ≡ l.driver)
        × Tells lib l (handle_mqtt_message m topic payload l)
  unfolding handle_mqtt_message report_error publish_state inc_published_event inc_poll_error
  handle_mqtt_message-Tells m topic payload l =
      let p =
        run_message_handler lib drv m.canceled l.driver dev.template payload dev.template_variables
          l.state.step_results in
      let same =
        run_message_handler-driver lib drv m.canceled l.driver dev.template payload
          dev.template_variables l.state.step_results in
      elim (Bool-cases l.io_locked) [
        | inl locked ↦ rw (locked, handle_mqtt_message) (refl, inl (refl, refl))
        | inr free ↦ elim (Result-cases p.0) [
          | inl ((steps, output), r) ↦
              let (told, kept) =
                handled-Told m steps output l (record l { driver = p.1; io_locked = false })
                  (refl, refl) in
              rw (r, handle_mqtt_message, free) (kept ∙ same, inr told)
          | inr (inl (e, r)) ↦ rw (r, handle_mqtt_message, free) (same, inr (refl, refl))
          | inr (inr r) ↦ rw (r, handle_mqtt_message, free) (same, inl (refl, refl))
        ]
      ]

-- An output with neither a weight nor a raw payload makes the weight of the state 0 if the fallback is a
-- pointer, as it is for a step on request: the last weight is not kept.
pub reading-forgets :
    (lib : Libs) (output : Fields) (weight : Option Float) (unit : Value)
    → get output (codes "weight") ≡ null
    → get output (codes "raw_payload") ≡ null
    → (reading lib output (float_ptr weight) unit).0 ≡ some 0
unfolding reading recover_weight_unit to_float_ptr value_or raw_payload_text eq_bytes trim_space
    to_float
reading-forgets lib output weight unit h k = rw (h, k) refl
