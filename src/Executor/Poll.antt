-- ===== src/Executor/Poll.antt =====
-- internal/service/protocol_executor.go: the runs over the steps of a template that the runtime makes on
-- its own (RunSetupSteps, RunPollSteps).
pub mod Frame
pub mod Last
use quantix_cnnector_go.Prelude.{
  ℕ, if◌then◌else◌, Bool, true, false, not, Option, none, some, List, [], ◌∷◌, ◌≡◌,
}
use quantix_cnnector_go.Prelude.Text.{Bytes, codes, eq_bytes}
use quantix_cnnector_go.Value.{
  Value, null, string, object, Items, nil, cons, Fields, end, field, Libs, Result, ok, err, panic,
  value_or, as_object, as_items,
}
use quantix_cnnector_go.Value.Maps.{get?, get, set, merge, clone}
use quantix_cnnector_go.Value.Sprint.{sprint}
use quantix_cnnector_go.Driver.{Driver}
use quantix_cnnector_go.Executor.Step.{execute_step, single}

abbrev pub or_nil : Option Items → Items
or_nil none = nil
or_nil (some xs) = xs

abbrev pub result_entry : Value → Value
result_entry v = object (single (codes "result") v)

-- contextMap: the step results under "steps", and the variables over them.
abbrev pub start_context : Fields → Fields → Fields
start_context steps variables = merge (single (codes "steps") (object steps)) variables

-- Whether contextMap["steps"] still is the map of step results: no variable has that name.
abbrev pub shares_steps : Fields → Bool
shares_steps variables = elim (get? variables (codes "steps")) [ none ↦ true | some v ↦ false ]

-- stepsMap := contextMap["steps"].(map[string]any); stepsMap[id] = {result}
unfoldable pub store_result : Fields → Bytes → Value → Result Fields
store_result context id v = elim (as_object (get context (codes "steps"))) [
  | none ↦ panic
  | some steps ↦ ok (set context (codes "steps") (object (set steps id (result_entry v))))
]

module _ (lib : Libs) where
  unfoldable pub step_id : Fields → Bytes
  step_id step = sprint lib (get step (codes "id"))

  unfoldable pub trigger : Fields → Bytes
  trigger step = sprint lib (value_or (get step (codes "trigger")) (string (codes "poll")))

  module _ {D : Type 0} (drv : Driver D) (canceled : Bool) where
    unfoldable pub setup_loop : Items → Fields → D → Result Fields × D
    unfolding step_id store_result
    setup_loop nil context d = (ok context, d)
    setup_loop (cons x rest) context d = elim (as_object x) [
      | none ↦ setup_loop rest context d
      | some step ↦
          let (r, d') = execute_step lib drv canceled d step context end false in
          elim r [
            | err e ↦ (err e, d')
            | panic ↦ (panic, d')
            | ok v ↦ elim (store_result context (step_id step) v) [
              | ok context' ↦ setup_loop rest context' d'
              | err e ↦ (err e, d')
              | panic ↦ (panic, d')
            ]
          ]
    ]

    abbrev steps_of : Result Fields → Result Fields
    steps_of (ok context) = elim (as_object (get context (codes "steps"))) [
      | none ↦ panic
      | some steps ↦ ok steps
    ]
    steps_of r = r

    unfoldable pub run_setup_steps : D → Fields → Fields → Result Fields × D
    unfolding setup_loop
    run_setup_steps d template variables =
        let (r, d') =
          setup_loop (or_nil (as_items (get template (codes "setup_steps"))))
            (start_context end variables) d in
        (steps_of r, d')

    -- The loop of RunPollSteps over the results and the context; `shared` says whether they share the map.
    unfoldable pub poll_loop : Bool → Items → Fields → Fields → D → Result Fields × D
    unfolding step_id trigger
    poll_loop shared nil results context d = (ok results, d)
    poll_loop shared (cons x rest) results context d = elim (as_object x) [
      | none ↦ poll_loop shared rest results context d
      | some step ↦
          let skip = poll_loop shared rest results context d in
          let (r, d') = execute_step lib drv canceled d step context end false in
          let go : Result Fields × D = elim r [
            | err e ↦ (err e, d')
            | panic ↦ (panic, d')
            | ok v ↦
                let results' = set results (step_id step) (result_entry v) in
                poll_loop shared rest results'
                  (if shared then set context (codes "steps") (object results') else context) d'
          ] in
          if eq_bytes (trigger step) (codes "poll") then go else skip
    ]

    unfoldable pub run_poll_steps : D → Fields → Fields → Fields → Result Fields × D
    unfolding poll_loop
    run_poll_steps d template variables previous =
        poll_loop (shares_steps variables) (or_nil (as_items (get template (codes "steps"))))
          (clone previous) (start_context (clone previous) variables) d
