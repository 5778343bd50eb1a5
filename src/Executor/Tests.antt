-- ===== src/Executor/Tests.antt =====
-- Runs of the protocol executor (internal/service/protocol_executor.go) on concrete templates, over a
-- driver that counts its calls and answers with its parameters.
use quantix_cnnector_go.Prelude.{ℕ, ◌+◌, ◌≡◌, refl, Bool, true, false, none, List, [], ◌∷◌, arith}
use quantix_cnnector_go.Prelude.Int.{pos, negsuc}
use quantix_cnnector_go.Prelude.Text.{codes, eq_bytes, join, trim_space, has_prefix}
use quantix_cnnector_go.Value.{
  Value, int, string, items, object, Items, nil, cons, Fields, end, field, Result, ok, err, errorf,
  value_or, as_object, as_items,
}
use quantix_cnnector_go.Value.Maps.{get?, get, set, clone, merge}
use quantix_cnnector_go.Value.Sprint.{sprint}
use quantix_cnnector_go.Value.Toy.{toy}
use quantix_cnnector_go.Driver.{Driver}
use quantix_cnnector_go.Executor.Context.{placeholder, resolve_value}
use quantix_cnnector_go.Executor.Context.Flow.{resolve-step_result}
use quantix_cnnector_go.Executor.Struct.{i16, parse_kind, parse_fields, parse_struct_field}
use quantix_cnnector_go.Executor.Struct.Bounds.{Inside, parse_struct_field-Inside}
use quantix_cnnector_go.Executor.Struct.Roundtrip.{two, one, parse-signed}
use quantix_cnnector_go.Executor.Struct.Layout.{
  Entry, layout, recorded, IsExact, parse_fields-layout,
}
use quantix_cnnector_go.Executor.Step.{execute_step, step_params, single, render_output}
use quantix_cnnector_go.Executor.Poll.{
  poll_loop, step_id, trigger, store_result, result_entry, start_context,
}
use quantix_cnnector_go.Executor.Poll.Frame.{poll_loop-frame, writes}
use quantix_cnnector_go.Executor.Poll.Last.{LastRun, poll_loop-LastRun}
use quantix_cnnector_go.Executor.Manual.{run_manual_step, find_step}

toy-IsExact : IsExact toy
toy-IsExact n h = refl

abbrev answer : Bool → Value → Result Value
answer true v = err (errorf (codes "no answer"))
answer false v = ok v

abbrev counter : Driver ℕ
counter = record {
  connect = λ n. (true, n);
  disconnect = λ n. n;
  is_connected = λ n. true;
  execute_action =
      λ n action params. (answer (eq_bytes action (codes "fail")) (object params), n + 1);
  last_error = λ n. [];
}

abbrev poll_step : Value → Fields
poll_step id = field (codes "id") id (field (codes "action") (string (codes "read")) end)

abbrev failing_step : Fields
failing_step =
    field (codes "id") (string (codes "x")) (field (codes "action") (string (codes "fail")) end)

abbrev manual_step : Fields
manual_step = field (codes "id") (string (codes "tare")) (
    field (codes "trigger") (string (codes "manual"))
      (field (codes "action") (string (codes "write")) end))

abbrev two_steps : Items
two_steps = cons (object (poll_step (string (codes "w")))) (cons (object manual_step) nil)

abbrev template : Fields
template = field (codes "steps") (items two_steps) end

abbrev weight_context : Fields
weight_context =
    field (codes "steps")
      (object (field (codes "r") (object (single (codes "result") (int (pos 7)))) end)) end

resolve-step_result_example :
    resolve_value toy (string (placeholder (codes "steps.r.result"))) (
      set weight_context
        (codes "steps")
        (object (set end (codes "r") (result_entry (int (pos 7))))))
    ≡ int (pos 7)
unfolding join
resolve-step_result_example =
    resolve-step_result toy (codes "r") (int (pos 7)) end weight_context (refl, tt) (refl, tt)

parse_struct_field-Inside_example :
    Inside
      (1 ∷ 2 ∷ 3 ∷ [])
      1
      (parse_struct_field toy (1 ∷ 2 ∷ 3 ∷ []) (pos 1) (pos 0) (codes "u16") (codes "le") end)
parse_struct_field-Inside_example =
    parse_struct_field-Inside toy (1 ∷ 2 ∷ 3 ∷ []) 1 (pos 0) (codes "u16") (codes "le") end
      (omega arith) (omega arith)

parse-signed_example :
    parse_kind toy i16 (9 ∷ 254 ∷ 255 ∷ 9 ∷ []) (pos 1) (pos 0) true end
    ≡ ok (int (negsuc 1), pos 3)
parse-signed_example =
    parse-signed toy true (9 ∷ []) (9 ∷ []) (pos 0) end two (negsuc 1) (omega arith) (omega arith)

abbrev record_entries : List Entry
record_entries =
    record { name = codes "w"; width = two; value = 1000 }
    ∷ record { name = codes "s"; width = one; value = 3 }
    ∷ []

parse_fields-layout_example :
    parse_fields toy (3 ∷ 232 ∷ 3 ∷ []) (layout record_entries) end (pos 0)
    ≡ ok (recorded end record_entries)
unfolding eq_bytes trim_space
parse_fields-layout_example =
    parse_fields-layout toy record_entries [] end toy-IsExact
      (refl, refl, omega arith, (refl, refl, omega arith, tt)) (omega arith)

abbrev run : Items → ℕ → Result Fields × ℕ
run steps n = poll_loop toy counter false true steps end (start_context end end) n

abbrev weight_results : Fields
weight_results = set end (codes "w") (result_entry (object end))

-- One step is polled, and the manual one is left out.
two_steps-run : run two_steps 0 ≡ (ok weight_results, 1)
unfolding poll_loop execute_step step_params resolve_value sprint value_or eq_bytes get merge set
    has_prefix as_object
two_steps-run = refl

abbrev failing : Items
failing = cons (object (poll_step (string (codes "w")))) (cons (object failing_step) nil)

failing-run : run failing 0 ≡ (err (errorf (codes "no answer")), 2)
unfolding poll_loop execute_step step_params resolve_value sprint value_or eq_bytes get merge set
    has_prefix as_object
failing-run = refl

poll_loop-LastRun_example :
    LastRun toy counter false true two_steps end
      (start_context end end)
      0
      weight_results
      (codes "w")
unfolding writes step_id trigger sprint value_or get as_object eq_bytes set merge
poll_loop-LastRun_example =
    poll_loop-LastRun toy counter false true two_steps end (start_context end end) 0 1
      weight_results (codes "w") refl two_steps-run refl

poll_loop-frame_example : get? weight_results (codes "v") ≡ none
unfolding get? writes step_id trigger sprint value_or get as_object eq_bytes
poll_loop-frame_example =
    poll_loop-frame toy counter false true two_steps end (start_context end end) 0 1 weight_results
      (codes "v") two_steps-run refl

abbrev handler_template : Fields
handler_template = single (codes "message_handler") (object failing_step)

abbrev tare_reply : Fields
tare_reply =
    field (codes "step_id") (string (codes "tare"))
      (field (codes "result") (object end) (field (codes "output") (object end) end))

tare_run :
    run_manual_step toy counter false 5 template (codes "tare") end end end ≡ (ok tare_reply, 6)
unfolding run_manual_step find_step step_id trigger store_result execute_step step_params
    resolve_value sprint value_or eq_bytes get merge set clone has_prefix as_object as_items
    render_output
tare_run = refl
