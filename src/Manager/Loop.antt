-- ===== src/Manager/Loop.antt =====
-- internal/service/device_manager.go: the loop of one runtime (runRuntimeLoop) and what restarts it after a
-- panic (superviseRuntime). A cycle is one turn of the loop up to the wait at its end.
pub mod Published
pub mod Backoff
use quantix_cnnector_go.Prelude.{
  ℕ, ◌+◌, ◌-◌, ◌*◌, ◌^◌, Bool, true, false, not, Option, none, some, List, [], ◌∷◌, ◌++◌, ltb,
  if◌then◌else◌,
}
use quantix_cnnector_go.Prelude.Int.{ℤ, pos, negsuc, ltb_ℤ, int_of_bits, bits_of_int, int_mod}
use quantix_cnnector_go.Prelude.Text.{Bytes, codes, eq_bytes, to_lower}
use quantix_cnnector_go.Value.{
  Value, null, uint, string, object, Fields, end, field, Libs, Result, ok, err, panic, Error,
  as_items,
}
use quantix_cnnector_go.Value.Maps.{get, merge}
use quantix_cnnector_go.Driver.{Driver}
use quantix_cnnector_go.Executor.Step.{render_output}
use quantix_cnnector_go.Executor.Poll.{or_nil, start_context, run_setup_steps, run_poll_steps}
use quantix_cnnector_go.Metrics.{
  RuntimeMetrics, inc_poll_cycle, inc_poll_error, inc_reconnect, inc_runtime_restart,
  inc_published_event, record_poll_latency,
}
use quantix_cnnector_go.Runtime.{RuntimeState, to_message, mark_online, mark_offline, mark_error}
use quantix_cnnector_go.Manager.Units.{
  normalize_category, event_type_for_category, normalize_unit, build_runtime_payload,
  has_poll_steps,
}
use quantix_cnnector_go.Manager.Scanner.{Scan, scanner_dedupe_window, scanner_should_publish}
use quantix_cnnector_go.Manager.Device.{Device, format_error, format_exception, reading}

-- What the loop changes: the driver, the state and the scans of its runtime, the metrics, the messages
-- passed to the event bus, whether ioMu is locked, and its local variables.
pub record Loop (D : Type 0) : Type 0 where
  pub driver : D
  pub state : RuntimeState
  pub scan : Scan
  pub metrics : RuntimeMetrics
  pub published : List Fields
  pub io_locked : Bool
  pub backoff : ℕ
  pub setup_done : Bool

-- What a cycle takes from its surroundings: whether the runtime's context ends, the time, and
-- time.Since(cycleStart) at its two readings.
pub record Moment : Type 0 where
  pub canceled : Bool
  pub now : ℕ
  pub latency : ℤ
  pub elapsed : ℤ

-- A cycle ends in a wait for a duration, in a panic, or blocks on ioMu.
pub data Next : Type 0 where
  wait : ℤ → Next
  crashed : Next
  stuck : Next

pub data Phase (D : Type 0) : Type 0 where
  go_on : Loop D → Phase D
  ends : Loop D → Next → Phase D

abbrev pub millis : ℕ
millis = 1000000

abbrev pub second : ℕ
second = 1000 * millis

abbrev pub max_duration : ℤ → ℤ → ℤ
max_duration a b = if ltb_ℤ b a then a else b

-- a - b on int64
abbrev pub minus : ℤ → ℤ → ℤ
minus a b = int_of_bits (bits_of_int a + (int_mod - bits_of_int b))

-- if backoff < 30*time.Second { backoff *= 2 }
unfoldable pub grow : ℕ → ℕ
grow backoff = if ltb backoff (30 * second) then backoff * 2 else backoff

module _ (lib : Libs) where
  -- publishEvent of the state's message
  unfoldable pub publish_state : {D : Type 0} → Loop D → Loop D
  publish_state l = record l {
    metrics = inc_published_event l.metrics;
    published = l.published ++ (to_message lib l.state ∷ []);
  }

  module _ {D : Type 0} (drv : Driver D) (dev : Device) where
    abbrev connect_error : D → Bytes
    connect_error d =
        if eq_bytes (drv.last_error d) [] then codes "connect failed" else drv.last_error d

    unfoldable pub fail_connect : Moment → Loop D → Loop D
    fail_connect m l =
        record (publish_state (record l {
          metrics = inc_reconnect l.metrics;
          state = mark_offline m.now l.state (
              format_error lib dev (codes "connect") (codes "connect_failed")
                (connect_error l.driver));
        })) { backoff = grow l.backoff }

    unfoldable pub connect_phase : Moment → Loop D → Phase D
    connect_phase m l =
        let (connected, d) = drv.connect l.driver in
        if drv.is_connected l.driver
        then go_on (record l { backoff = second })
        else if l.io_locked
        then ends l stuck
        else if connected
        then go_on (record l { driver = d; backoff = second; setup_done = false })
        else ends (fail_connect m (record l { driver = d })) (wait (pos l.backoff))

    -- MarkError with the error of a stage, and its message.
    unfoldable pub report_error : Moment → Bytes → Error → Loop D → Loop D
    report_error m stage e l =
        publish_state
          (record l { state = mark_error m.now l.state (format_exception lib dev stage e) })

    unfoldable pub setup_phase : Moment → Loop D → Phase D
    setup_phase m l =
        let (r, d) =
          run_setup_steps lib drv m.canceled l.driver dev.template dev.template_variables in
        let run : Phase D = elim r [
          | ok setup ↦ go_on (record l {
            driver = d;
            state = record l.state { step_results = merge l.state.step_results setup };
            setup_done = true;
          })
          | err e ↦
              ends (report_error m (codes "setup") e (record l { driver = d }))
                (wait (pos l.backoff))
          | panic ↦ ends (record l { driver = d; io_locked = true }) crashed
        ] in
        if l.setup_done then go_on l else if l.io_locked then ends l stuck else run

    -- A template without poll steps.
    unfoldable pub idle_phase : Moment → Loop D → Phase D
    idle_phase m l =
        let s = l.state in
        let online = record l {
          state =
              mark_online m.now s s.weight (normalize_unit s.unit)
                (event_type_for_category (normalize_category dev.category)) s.payload;
        } in
        let l' = if eq_bytes s.status (codes "online") then l else publish_state online in
        if l.io_locked
        then ends l stuck
        else ends l' (wait (max_duration dev.poll_interval (pos (200 * millis))))

    abbrev pub poll_output : Fields → Fields
    poll_output steps = render_output lib dev.template (start_context steps dev.template_variables)

    -- Whether to publish, the scans and the payload behind it.
    unfoldable pub screen : Moment → Fields → Scan → Bool × Scan × Fields
    screen m output s =
        if eq_bytes (normalize_category dev.category) (codes "scanner")
        then scanner_should_publish lib
            (scanner_dedupe_window lib dev.connection_params dev.template_variables) m.now s
            (build_runtime_payload output)
        else (true, s, build_runtime_payload output)

    -- The state of a successful poll.
    unfoldable pub enter : Moment → Fields → Loop D → Loop D
    enter m steps l =
        let output = poll_output steps in
        let (weight, unit) = reading lib output null (string (codes "kg")) in
        let (publishes, scan, payload) = screen m output l.scan in
        record l {
          scan = scan;
          state =
              mark_online m.now (record l.state { step_results = steps }) weight unit
                (event_type_for_category (normalize_category dev.category)) payload;
        }

    -- The part of a successful poll under the lock.
    unfoldable pub accept : Moment → Fields → Loop D → Loop D
    accept m steps l =
        if (screen m (poll_output steps) l.scan).0
        then publish_state (enter m steps l)
        else enter m steps l

    -- What RecordPollLatency gives, then the rest.
    abbrev pub timed : Loop D → Result RuntimeMetrics → (Loop D → Phase D) → Phase D
    timed l (ok metrics) f = f (record l { metrics = metrics })
    timed l (err e) f = ends l crashed
    timed l panic f = ends l crashed

    abbrev pub sleep_for : Moment → ℤ
    sleep_for m =
        max_duration (minus (max_duration dev.poll_interval (pos (20 * millis))) m.elapsed)
          (pos (5 * millis))

    abbrev pub rest : Moment → Loop D → Phase D
    rest m l = ends l (wait (sleep_for m))

    abbrev pub back_off : Moment → Error → Loop D → Phase D
    back_off m e l =
        ends (record (report_error m (codes "poll") e l) { backoff = grow l.backoff })
          (wait (pos l.backoff))

    unfoldable pub poll_ok : Moment → Loop D → Phase D
    poll_ok m l =
        let l' = record l { metrics = inc_poll_cycle l.metrics } in
        timed l' (record_poll_latency l'.metrics m.latency) (rest m)

    unfoldable pub poll_failed : Moment → Error → Loop D → Phase D
    poll_failed m e l =
        let l' = record l { metrics = inc_poll_error l.metrics } in
        timed l' (record_poll_latency l'.metrics m.latency) (back_off m e)

    unfoldable pub poll_phase : Moment → Loop D → Phase D
    poll_phase m l =
        let (r, d) =
          run_poll_steps lib drv m.canceled l.driver dev.template dev.template_variables
            l.state.step_results in
        let run : Phase D = elim r [
          | ok steps ↦ poll_ok m (accept m steps (record l { driver = d }))
          | err e ↦ poll_failed m e (record l { driver = d })
          | panic ↦ ends (record l { driver = d; io_locked = true }) crashed
        ] in
        if l.io_locked then ends l stuck else run

    unfoldable pub run_phase : Moment → Loop D → Phase D
    run_phase m l =
        if eq_bytes (to_lower dev.protocol_type) (codes "mqtt")
        then ends l (wait (max_duration dev.poll_interval (pos second)))
        else if has_poll_steps lib (or_nil (as_items (get dev.template (codes "steps"))))
        then poll_phase m l
        else idle_phase m l

    abbrev pub followed_by : Phase D → (Loop D → Phase D) → Phase D
    followed_by (go_on l) f = f l
    followed_by (ends l n) f = ends l n

    abbrev pub outcome : Phase D → Loop D × Next
    outcome (go_on l) = (l, wait (pos 0))
    outcome (ends l n) = (l, n)

    -- One turn of runRuntimeLoop.
    unfoldable pub cycle : Moment → Loop D → Loop D × Next
    cycle m l =
        outcome (followed_by (followed_by (connect_phase m l) (setup_phase m)) (run_phase m))

    -- The event of superviseRuntime, with the text of the panic.
    abbrev pub panic_message : Bytes → ℕ → Fields
    panic_message text now =
        field (codes "type") (string (event_type_for_category (normalize_category dev.category))) (
          field (codes "device_id") (uint dev.id) (
            field (codes "device_name") (string dev.name) (
              field (codes "device_code") (string dev.device_code) (
                field (codes "device_category") (string (normalize_category dev.category)) (
                  field (codes "status") (string (codes "error")) (
                    field (codes "weight") null (
                      field (codes "unit") (string (codes "kg")) (
                        field (codes "payload") (object end) (
                          field (codes "timestamp") (string (lib.show_time now))
                            (field (codes "error") (string text) end))))))))))

    -- What superviseRuntime does between a panic of the loop and its restart.
    unfoldable pub restart : Bytes → ℕ → Loop D → Loop D
    restart text now l = record l {
      metrics = inc_runtime_restart (inc_published_event l.metrics);
      published = l.published ++ (panic_message text now ∷ []);
      backoff = second;
      setup_done = false;
    }
