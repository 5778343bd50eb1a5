-- ===== src/Executor/Manual.antt =====
-- internal/service/protocol_executor.go: the runs on request and on a message (RunManualStep,
-- RunMessageHandler).
use quantix_cnnector_go.Prelude.{
  if◌then◌else◌, Bool, true, false, Option, none, some, Option-cases, Bool-cases, inl, inr, ◌++◌,
  ◌≡◌, refl, ap, arith,
}
use quantix_cnnector_go.Prelude.Text.{Bytes, codes, eq_bytes}
use quantix_cnnector_go.Value.{
  Value, string, object, Items, nil, cons, Fields, end, field, Libs, Result, ok, err, panic, Error,
  errorf, as_object, as_items,
}
use quantix_cnnector_go.Value.Maps.{get, set, clone, merge}
use quantix_cnnector_go.Driver.{Driver}
use quantix_cnnector_go.Executor.Step.{execute_step, execute_step-skips, single, render_output}
use quantix_cnnector_go.Executor.Poll.{
  or_nil, result_entry, start_context, step_id, trigger, store_result,
}

abbrev pub not_found : Bytes → Error
not_found id = errorf (codes "Step not found: " ++ id)

abbrev pub not_manual : Bytes → Error
not_manual id = errorf (codes "Step is not manual trigger: " ++ id)

abbrev pub no_handler : Error
no_handler = errorf (codes "Template has no message_handler")

module _ (lib : Libs) where
  -- The first step with this id.
  unfoldable pub find_step : Bytes → Items → Option Fields
  find_step id nil = none
  find_step id (cons x rest) = elim (as_object x) [
    | none ↦ find_step id rest
    | some step ↦ if eq_bytes (step_id lib step) id then some step else find_step id rest
  ]

  abbrev pub is_manual : Fields → Bool
  is_manual step = eq_bytes (trigger lib step) (codes "manual")

  -- What RunManualStep returns.
  abbrev pub manual_reply : Fields → Fields → Value → Fields → Fields
  manual_reply template step v context = field (codes "step_id") (get step (codes "id")) (
      field (codes "result") v
        (field (codes "output") (object (render_output lib template context)) end))

  module _ {D : Type 0} (drv : Driver D) (canceled : Bool) where
    abbrev replied : Fields → Fields → Value → Result Fields → Result Fields
    replied template step v (ok context) = ok (manual_reply template step v context)
    replied template step v (err e) = err e
    replied template step v panic = panic

    abbrev finish : Fields → Fields → Fields → Result Value → Result Fields
    finish template step context (ok v) =
        replied template step v (store_result context (step_id lib step) v)
    finish template step context (err e) = err e
    finish template step context panic = panic

    unfoldable pub run_manual_step :
        D → Fields → Bytes → Fields → Fields → Fields → Result Fields × D
    run_manual_step d template id variables overrides previous =
        elim (find_step id (or_nil (as_items (get template (codes "steps"))))) [
          | none ↦ (err (not_found id), d)
          | some step ↦
              let context = start_context (clone previous) variables in
              let (r, d') = execute_step lib drv canceled d step context overrides false in
              if is_manual step
              then (finish template step context r, d')
              else (err (not_manual id), d)
        ]

    abbrev handled : Fields → Fields → Result Value → Result (Fields × Fields)
    handled template context (ok v) =
        let context' = set context (codes "message_handler") (result_entry v) in
        elim (as_object (get context' (codes "steps"))) [
          | none ↦ panic
          | some steps ↦ ok (steps, render_output lib template context')
        ]
    handled template context (err e) = err e
    handled template context panic = panic

    unfoldable pub run_message_handler :
        D → Fields → Bytes → Fields → Fields → Result (Fields × Fields) × D
    run_message_handler d template payload variables previous =
        elim (as_object (get template (codes "message_handler"))) [
          | none ↦ (err no_handler, d)
          | some handler ↦
              let context =
                merge
                  (field (codes "payload") (string payload)
                    (single (codes "steps") (object (clone previous))))
                  variables in
              let (r, d') = execute_step lib drv canceled d handler context end true in
              (handled template context r, d')
        ]

    -- A message that arrives is interpreted without any call of the driver, on every branch.
    pub run_message_handler-driver :
        (d : D) (template : Fields) (payload : Bytes) (variables previous : Fields)
        → (run_message_handler d template payload variables previous).1 ≡ d
    unfolding run_message_handler
    run_message_handler-driver d template payload variables previous =
        elim (Option-cases (as_object (get template (codes "message_handler")))) [
          | inl e ↦ rw (e, run_message_handler)
          | inr (handler, e) ↦
              rw (e, run_message_handler) (execute_step-skips lib drv canceled d handler _ end)
        ]

    module _ (d : D) (template : Fields) (id : Bytes) (variables overrides previous : Fields) where
      -- A request for a step that the template does not have is refused with an error that names the
      -- step, and does not touch the driver.
      pub run_manual_step-missing :
          find_step id (or_nil (as_items (get template (codes "steps")))) ≡ none
          → run_manual_step d template id variables overrides previous ≡ (err (not_found id), d)
      unfolding run_manual_step
      run_manual_step-missing e = rw (e, run_manual_step)

      -- A request for a step that is not triggered by hand is refused with an error that names the step,
      -- and does not touch the driver.
      pub run_manual_step-not_manual :
          (step : Fields)
          → find_step id (or_nil (as_items (get template (codes "steps")))) ≡ some step
          → is_manual step ≡ false
          → run_manual_step d template id variables overrides previous ≡ (err (not_manual id), d)
      unfolding run_manual_step
      run_manual_step-not_manual step e other = rw (e, run_manual_step, other)

    reply_fields :
        (template step : Fields) (v : Value) (context : Fields)
        → (get (manual_reply template step v context) (codes "step_id") ≡ get step (codes "id"))
          × (get (manual_reply template step v context) (codes "result") ≡ v)
    unfolding get eq_bytes
    reply_fields template step v context = (refl, refl)

    replied-ok :
        (template step : Fields) (v : Value) (r : Result Fields) (reply : Fields)
        → replied template step v r ≡ ok reply
        → (get reply (codes "step_id") ≡ get step (codes "id")) × (get reply (codes "result") ≡ v)
    replied-ok template step v (ok context) reply h =
        let fields = reply_fields template step v context in (ground arith, ground arith)
    replied-ok template step v (err e) reply h = cc
    replied-ok template step v panic reply h = cc

    finish-ok :
        (template step context : Fields) (r : Result Value) (reply : Fields)
        → finish template step context r ≡ ok reply
        → (v : Value) × (r ≡ ok v)
          × (get reply (codes "step_id") ≡ get step (codes "id"))
          × (get reply (codes "result") ≡ v)
    finish-ok template step context (ok v) reply h =
        let fields = replied-ok template step v _ reply h in (v, refl, fields.0, fields.1)
    finish-ok template step context (err e) reply h = cc
    finish-ok template step context panic reply h = cc

    -- A request that succeeds ran one step, the first of the template with the requested id, which is
    -- triggered by hand: the driver's state is the one after that step with the overridden parameters,
    -- and the reply holds the step's id and its result.
    pub run_manual_step-runs :
        (d d' : D) (template : Fields) (id : Bytes) (variables overrides previous reply : Fields)
        → run_manual_step d template id variables overrides previous ≡ (ok reply, d')
        → (step : Fields) × (v : Value) × (find_step id
              (or_nil (as_items (get template (codes "steps"))))
            ≡ some step)
          × (is_manual step ≡ true)
          × (execute_step lib drv canceled d step
                (start_context (clone previous) variables)
                overrides
                false
              ≡ (ok v, d'))
          × (get reply (codes "step_id") ≡ get step (codes "id"))
          × (get reply (codes "result") ≡ v)
    unfolding run_manual_step
    run_manual_step-runs d d' template id variables overrides previous reply h =
        elim (Option-cases (find_step id (or_nil (as_items (get template (codes "steps")))))) [
          | inl e ↦ let bad = rw (e, run_manual_step) at h in cc
          | inr (step, e) ↦ elim (Bool-cases (is_manual step)) [
            | inr other ↦ let bad = rw (e, run_manual_step, other) at h in cc
            | inl manual ↦
                let context : Fields = start_context (clone previous) variables in
                let p : Result Value × D =
                  execute_step lib drv canceled d step context overrides false in
                let done : ◌≡◌ {A = Result Fields × D} (finish template step context p.0, p.1)
                    (ok reply, d') =
                  rw (e, run_manual_step, manual) at h in
                let (v, q, id_field, result_field) =
                  finish-ok template step context p.0 reply
                    (ap (λ (r : Result Fields × D). r.0) done) in
                (step, v, e, manual, ground (arith, q, done), id_field, result_field)
          ]
        ]
