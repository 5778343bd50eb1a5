-- ===== src/Api/Trial.antt =====
-- internal/api/protocols.go: trying a template out on a device (testProtocol, testSingleStep). Build's
-- result for the template and the parameters of a request is the parameter `built`.
pub mod ReadOnly
use quantix_cnnector_go.Prelude.{
  ℕ, Bool, true, false, ◌&&◌, ◌||◌, not, Option, none, some, [], ◌++◌, if◌then◌else◌, ◌⊎◌, inl, inr,
}
use quantix_cnnector_go.Prelude.Text.{Bytes, codes, utf8, eq_bytes, trim_space, to_lower}
use quantix_cnnector_go.Value.{
  Value, null, bool, string, object, Items, nil, cons, Fields, end, field, Libs, Result, ok, err,
  panic, Error, errorf, value_or, as_object, as_items,
}
use quantix_cnnector_go.Value.Maps.{get, set, merge, clone}
use quantix_cnnector_go.Value.Sprint.{sprint}
use quantix_cnnector_go.Driver.{Driver}
use quantix_cnnector_go.Executor.Step.{execute_step, single, render_output}
use quantix_cnnector_go.Executor.Poll.{
  or_nil, result_entry, start_context, run_setup_steps, run_poll_steps,
}
use quantix_cnnector_go.Api.{Response, detail, answer, invalid_id}
use quantix_cnnector_go.Api.Protocols.{Template, not_found}

pub record StepTestRequest : Type 0 where
  pub template_variables : Fields
  pub step_id : Bytes
  pub step_context : Bytes
  pub allow_write : Bool
  pub test_payload : Option Bytes
  pub previous_steps : Fields

unfoldable pub is_write_action : Bytes → Bool
is_write_action action =
    let a = trim_space (to_lower action) in
    eq_bytes a (codes "modbus.write_register")
    || eq_bytes a (codes "modbus.write_coil")
    || eq_bytes a (codes "modbus.write_registers")
    || eq_bytes a (codes "modbus.write_coils")
    || eq_bytes a (codes "mqtt.publish")
    || eq_bytes a (codes "serial.send")
    || eq_bytes a (codes "tcp.send")

abbrev pub failure : Bytes → Response
failure text = answer (field (codes "ok") (bool false) (field (codes "error") (string text) end))

abbrev write_refused : Bytes → Response
write_refused action = answer (
    field (codes "ok") (bool false) (
      field (codes "error") (string (utf8 "写操作需要显式设置 allow_write=true")) (
        field (codes "action") (string action)
          (field (codes "safety_warning") (string (utf8 "该操作可能修改设备状态")) end))))

-- Reading a nil map gives nothing.
abbrev pub payload_or_empty : Option Bytes → Bytes
payload_or_empty none = []
payload_or_empty (some p) = p

module _ (lib : Libs) where
  abbrev pub to_str : Value → Bytes
  to_str v = trim_space (sprint lib v)

  -- The first step with this id that passes the test.
  unfoldable pub find_in : (Fields → Bool) → Bytes → Items → Option Fields
  find_in passes id nil = none
  find_in passes id (cons x rest) =
      let later = find_in passes id rest in
      elim (as_object x) [
        | none ↦ later
        | some step ↦
            if eq_bytes (to_str (get step (codes "id"))) id && passes step then some step else later
      ]

  abbrev is_polled : Fields → Bool
  is_polled step =
      eq_bytes (to_str (value_or (get step (codes "trigger")) (string (codes "poll"))))
        (codes "poll")

  abbrev if_named : Bytes → Option Fields → Option Fields
  if_named id none = none
  if_named id (some step) = if eq_bytes (to_str (get step (codes "id"))) id then some step else none

  unfoldable pub find_step : Fields → Bytes → Bytes → Option Fields
  unfolding find_in
  find_step template id ctx =
      let setup =
        find_in (λ (step : Fields). true) id
          (or_nil (as_items (get template (codes "setup_steps")))) in
      let event = if_named id (as_object (get template (codes "message_handler"))) in
      let poll = find_in is_polled id (or_nil (as_items (get template (codes "steps")))) in
      if eq_bytes ctx (codes "setup")
      then setup
      else if eq_bytes ctx (codes "event")
      then event
      else poll

  -- The outcome of a handler, with the driver that it built, as it leaves it; gin recovers a panic.
  module _ {D : Type 0} (drv : Driver D) where
    abbrev pub Outcome : Type 0
    Outcome = Result Response × Option D

    -- The deferred Disconnect.
    abbrev pub closed : Result Response × D → Outcome
    closed (r, d) = (r, some (drv.disconnect d))

    abbrev pub connected : (D → Result Response × D) → Error ⊎ D → Outcome
    connected run (inl e) = (ok (failure e.text), none)
    connected run (inr d) =
        let c = drv.connect d in
        closed (if c.0 then run c.1 else (ok (failure (codes "connect failed")), c.1))

    abbrev replied : Result Fields → Value → Result Response
    replied (ok steps) output = ok (
        answer (
          field (codes "ok") (bool true)
            (field (codes "steps") (object steps) (field (codes "output") output end))))
    replied (err e) output = ok (failure e.text)
    replied panic output = panic

    abbrev polled : Fields → Fields → Result Fields × D → Result Response × D
    polled template variables (ok steps, d) = (
      replied (ok steps) (object (render_output lib template (start_context steps variables))),
      d,
    )
    polled template variables (err e, d) = (ok (failure e.text), d)
    polled template variables (panic, d) = (panic, d)

    abbrev set_up : Bytes → Fields → Fields → Result Fields × D → Result Response × D
    set_up protocol_type template variables (err e, d) = (ok (failure e.text), d)
    set_up protocol_type template variables (panic, d) = (panic, d)
    set_up protocol_type template variables (ok steps, d) =
        if eq_bytes (to_lower protocol_type) (codes "mqtt")
        then (replied (ok steps) null, d)
        else polled template variables (run_poll_steps lib drv false d template variables steps)

    -- testProtocol on a row, with the variables of a request that was bound.
    unfoldable pub test_row : Template → Fields → Error ⊎ D → Outcome
    test_row row variables built =
        let template = clone row.template in
        connected
          (λ (d : D).
            set_up row.protocol_type template variables
              (run_setup_steps lib drv false d template variables))
          built

    abbrev without_row : Option ℕ → Outcome
    without_row none = (ok invalid_id, none)
    without_row (some id) = (ok not_found, none)

    -- `found` is the row of the id, if there is one.
    unfoldable pub test_protocol : Option ℕ → Option Template → Error ⊎ Fields → Error ⊎ D → Outcome
    unfolding test_row
    test_protocol id none body built = without_row id
    test_protocol id (some row) (inl e) built = (ok (detail 400 e.text), none)
    test_protocol id (some row) (inr variables) built = test_row row variables built

    abbrev step_reply : Bytes → Bytes → Value → Fields → Response
    step_reply id action v rendered = answer (
        field (codes "ok") (bool true) (
          field (codes "step_id") (string id) (
            field (codes "action") (string action) (
              field (codes "step_result") v
                (field (codes "rendered_output") (object rendered) end)))))

    abbrev stepped :
        StepTestRequest → Bytes → (Value → Fields) → Result Value × D → Result Response × D
    stepped req action render (ok v, d) = (ok (step_reply req.step_id action v (render v)), d)
    stepped req action render (err e, d) = (ok (failure e.text), d)
    stepped req action render (panic, d) = (panic, d)

    -- The step of a request, run on a driver that is connected.
    unfoldable pub run_step : Fields → Fields → StepTestRequest → D → Result Response × D
    run_step template step req d =
        let action = to_str (get step (codes "action")) in
        let previous = clone req.previous_steps in
        let context = start_context previous req.template_variables in
        let payload = string (payload_or_empty req.test_payload) in
        let event_context = set context (codes "payload") payload in
        let event_render = λ (v : Value).
          render_output lib template
            (set event_context (codes "message_handler") (result_entry v)) in
        let render = λ (v : Value). render_output lib template (
          set context (codes "steps")
            (object (set (clone previous) (to_str (get step (codes "id"))) (result_entry v)))) in
        let event =
          stepped req action event_render
            (execute_step lib drv false d step event_context end true) in
        let other =
          stepped req action render (execute_step lib drv false d step context end false) in
        if eq_bytes req.step_context (codes "event") then event else other

    abbrev pub on_step : Fields → StepTestRequest → Error ⊎ D → Option Fields → Outcome
    on_step template req built none =
        (ok (detail 404 (codes "Step not found: " ++ req.step_id)), none)
    on_step template req built (some step) =
        let action = to_str (get step (codes "action")) in
        if not req.allow_write && is_write_action action
        then (ok (write_refused action), none)
        else connected (run_step template step req) built

    unfoldable pub test_single_step :
        Option ℕ → Option Template → Error ⊎ StepTestRequest → Error ⊎ D → Outcome
    unfolding run_step find_step is_write_action
    test_single_step id none body built = without_row id
    test_single_step id (some row) (inl e) built = (ok (detail 400 e.text), none)
    test_single_step id (some row) (inr req) built =
        let template = clone row.template in
        on_step template req built (find_step template req.step_id req.step_context)
