-- ===== src/Api/Trial/ReadOnly.antt =====
-- Trying a step out without leave to write (testSingleStep).
use quantix_cnnector_go.Prelude.{
  ℕ, ◌≡◌, refl, Bool, true, false, Bool-cases, Option, none, some, ◌||◌, ◌⊎◌, inl, inr,
  if◌then◌else◌,
}
use quantix_cnnector_go.Prelude.Text.{Bytes, codes, eq_bytes, trim_space, to_lower}
use quantix_cnnector_go.Value.{string, Fields, end, Libs, Result, ok, Error}
use quantix_cnnector_go.Value.Maps.{get, set, clone}
use quantix_cnnector_go.Value.Sprint.{sprint}
use quantix_cnnector_go.Driver.{Driver}
use quantix_cnnector_go.Executor.Step.{perform, execute_step, step_params}
use quantix_cnnector_go.Executor.Poll.{start_context}
use quantix_cnnector_go.Api.{Response}
use quantix_cnnector_go.Api.Protocols.{Template}
use quantix_cnnector_go.Api.Trial.{
  StepTestRequest, is_write_action, to_str, find_step, closed, connected, run_step, on_step,
  test_single_step, payload_or_empty, failure,
}

-- The actions that change a device.
pub data Writing : Bytes → Type 0 where
  write_register : Writing (codes "modbus.write_register")
  write_coil : Writing (codes "modbus.write_coil")
  write_registers : Writing (codes "modbus.write_registers")
  write_coils : Writing (codes "modbus.write_coils")
  mqtt_publish : Writing (codes "mqtt.publish")
  serial_send : Writing (codes "serial.send")
  tcp_send : Writing (codes "tcp.send")

-- An action is read without its case and the space around it.
abbrev pub IsWriting : Bytes → Type 0
IsWriting action = Writing (trim_space (to_lower action))

Writing-known :
    (a : Bytes)
    → Writing a
    → (eq_bytes a (codes "modbus.write_register")
        || eq_bytes a (codes "modbus.write_coil")
        || eq_bytes a (codes "modbus.write_registers")
        || eq_bytes a (codes "modbus.write_coils")
        || eq_bytes a (codes "mqtt.publish")
        || eq_bytes a (codes "serial.send")
        || eq_bytes a (codes "tcp.send"))
      ≡ true
unfolding eq_bytes
Writing-known _ write_register = refl
Writing-known _ write_coil = refl
Writing-known _ write_registers = refl
Writing-known _ write_coils = refl
Writing-known _ mqtt_publish = refl
Writing-known _ serial_send = refl
Writing-known _ tcp_send = refl

is_write_action-IsWriting : (action : Bytes) → is_write_action action ≡ false → ¬ (IsWriting action)
unfolding is_write_action
is_write_action-IsWriting action h w = cc (Writing-known (trim_space (to_lower action)) w)

module _ (lib : Libs) {D : Type 0} (drv drv' : Driver D) where
  -- The two drivers differ at most in what they do to write.
  pub record Agree : Type 0 where
    pub connects : (d : D) → drv.connect d ≡ drv'.connect d
    pub disconnects : (d : D) → drv.disconnect d ≡ drv'.disconnect d
    pub reads :
        (d : D) (action : Bytes) (ps : Fields)
        → ¬ (IsWriting (trim_space action))
        → drv.execute_action d action ps ≡ drv'.execute_action d action ps

  module _ (same : Agree) where
    perform-Agree :
        (d : D) (action : Bytes) (params context : Fields) (skip : Bool)
        → is_write_action (trim_space action) ≡ false
        → perform lib drv false d action params context skip
          ≡ perform lib drv' false d action params context skip
    unfolding perform
    perform-Agree d action params context skip h =
        rw (same.reads d action params (is_write_action-IsWriting (trim_space action) h)) refl

    execute_step-Agree :
        (d : D) (step context : Fields) (skip : Bool)
        → is_write_action (to_str lib (get step (codes "action"))) ≡ false
        → execute_step lib drv false d step context end skip
          ≡ execute_step lib drv' false d step context end skip
    unfolding execute_step
    execute_step-Agree d step context skip h =
        rw
          (perform-Agree d (sprint lib (get step (codes "action")))
            (step_params lib step context end) context skip h)
          refl

    run_step-Agree :
        (template step : Fields) (req : StepTestRequest) (d : D)
        → is_write_action (to_str lib (get step (codes "action"))) ≡ false
        → run_step lib drv template step req d ≡ run_step lib drv' template step req d
    unfolding run_step
    run_step-Agree template step req d h =
        let context = start_context (clone req.previous_steps) req.template_variables in
        rw
          (
            execute_step-Agree d step context false h,
            execute_step-Agree d step
                (set context (codes "payload") (string (payload_or_empty req.test_payload))) true h,
          )
          refl

    closed-Agree : (r : Result Response × D) → closed lib drv r ≡ closed lib drv' r
    closed-Agree (r, d) = rw (same.disconnects d) refl

    connected-Agree :
        (run run' : D → Result Response × D) (built : Error ⊎ D)
        → ((d : D) → run d ≡ run' d)
        → connected lib drv run built ≡ connected lib drv' run' built
    connected-Agree run run' (inl e) h = refl
    connected-Agree run run' (inr d) h =
        let reached : D = (drv'.connect d).1 in
        rw (same.connects d, h reached)
          (closed-Agree (
            if (drv'.connect d).0
            then run' reached
            else (ok (failure (codes "connect failed")), reached)))

    on_step-Agree :
        (template : Fields) (req : StepTestRequest) (built : Error ⊎ D) (found : Option Fields)
        → req.allow_write ≡ false
        → on_step lib drv template req built found ≡ on_step lib drv' template req built found
    unfolding run_step
    on_step-Agree template req built none h = refl
    on_step-Agree template req built (some step) h =
        elim (Bool-cases (is_write_action (to_str lib (get step (codes "action"))))) [
          | inl write ↦ rw (h, write) refl
          | inr read ↦
              rw (h, read)
                (connected-Agree (run_step lib drv template step req)
                  (run_step lib drv' template step req) built
                  (λ d. run_step-Agree template step req d read))
        ]

    -- A request to try a step out that does not allow writing gives the same answer, and leaves
    -- the device the same, with two drivers that differ only in what they do for one of the
    -- seven writing actions: none is executed, whatever the template holds and whichever step is asked for.
    pub test_single_step-Agree :
        (id : Option ℕ) (row : Option Template) (req : StepTestRequest) (built : Error ⊎ D)
        → req.allow_write ≡ false
        → test_single_step lib drv id row (inr req) built
          ≡ test_single_step lib drv' id row (inr req) built
    unfolding test_single_step
    test_single_step-Agree id none req built h = refl
    test_single_step-Agree id (some row) req built h =
        on_step-Agree (clone row.template) req built
          (find_step lib (clone row.template) req.step_id req.step_context) h
