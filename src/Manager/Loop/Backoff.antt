-- ===== src/Manager/Loop/Backoff.antt =====
-- How long the loop waits after failures (runRuntimeLoop).
use quantix_cnnector_go.Prelude.{
  Bool, ℕ, zero, suc, ◌*◌, ◌^◌, ◌≡◌, refl, ◌∙◌, true, false, List, [], ◌∷◌, inl, inr, none,
  Bool-cases, ltb, length, ap, if◌then◌else◌, arith,
}
use quantix_cnnector_go.Prelude.Int.{ℤ, pos, ◌≤ℤ◌}
use quantix_cnnector_go.Prelude.Text.{codes, eq_bytes, to_lower}
use quantix_cnnector_go.Value.{Fields, Libs, Result, ok, err, Error, as_items}
use quantix_cnnector_go.Value.Maps.{get}
use quantix_cnnector_go.Driver.{Driver}
use quantix_cnnector_go.Executor.Poll.{or_nil, run_poll_steps}
use quantix_cnnector_go.Metrics.{
  RuntimeMetrics, inc_published_event, inc_poll_cycle, inc_poll_error, record_poll_latency,
}
use quantix_cnnector_go.Runtime.{mark_error, mark_online}
use quantix_cnnector_go.Manager.Units.{has_poll_steps}
use quantix_cnnector_go.Manager.Device.{Device, format_exception}
use quantix_cnnector_go.Manager.Loop.{
  outcome, second, millis, accept, enter, screen, poll_output, sleep_for, poll_ok, grow, Loop,
  Moment, Next, wait, crashed, stuck, publish_state, fail_connect, connect_phase, report_error,
  setup_phase, poll_failed, poll_phase, run_phase, cycle,
}

-- The k-th wait of an outage: 1, 2, 4, 8, 16 and then 32 seconds.
abbrev pub level : ℕ → ℕ
level k = if ltb k 5 then second * 2 ^ k else 32 * second

grow-level : (k : ℕ) → grow (level k) ≡ level (suc k)
unfolding grow
grow-level zero = refl
grow-level (suc zero) = refl
grow-level (suc (suc zero)) = refl
grow-level (suc (suc (suc zero))) = refl
grow-level (suc (suc (suc (suc zero)))) = refl
grow-level (suc (suc (suc (suc (suc k))))) = ground arith

-- A turn of the loop with what stopCh says at its start and during its wait.
pub record Turn : Type 0 where
  pub stop_before : Bool
  pub moment : Moment
  pub stop_in_wait : Bool

-- The waits of an outage up to the first request to stop.
abbrev pub waits_from : ℕ → List Turn → List Next
waits_from k [] = []
waits_from k (t ∷ ts) =
    let more = waits_from (suc k) ts in
    if t.stop_before then [] else wait (pos (level k)) ∷ (if t.stop_in_wait then [] else more)

-- The next latency falls in the ring.
abbrev pub HasRoom : RuntimeMetrics → Type 0
HasRoom m = ltb m.lat_index (length m.latency_ring) ≡ true

module _ (lib : Libs) {D : Type 0} (drv : Driver D) (dev : Device) where
  -- The turns of the loop up to one that is stopped or does not end in a wait.
  pub runtime_loop : List Turn → Loop D → List Next × Loop D
  runtime_loop [] l = ([], l)
  runtime_loop (t ∷ ts) l =
      let (l', n) = cycle lib drv dev t.moment l in
      let (ns, l'') = runtime_loop ts l' in
      let go : List Next × Loop D = elim n [
        | wait d ↦ if t.stop_in_wait then (wait d ∷ [], l') else (wait d ∷ ns, l'')
        | crashed ↦ (crashed ∷ [], l')
        | stuck ↦ (stuck ∷ [], l')
      ] in
      if t.stop_before then ([], l) else go

  failed_turn :
      (m : Moment) (l : Loop D)
      → drv.is_connected l.driver ≡ false
      → (drv.connect l.driver).0 ≡ false
      → l.io_locked ≡ false
      → (cycle lib drv dev m l).1 ≡ wait (pos l.backoff)
        × ((cycle lib drv dev m l).0.backoff ≡ grow l.backoff)
        × ((cycle lib drv dev m l).0.io_locked ≡ false)
  unfolding cycle connect_phase fail_connect publish_state
  failed_turn m l off fails free = rw (off, free, fails) (refl, refl, refl)

  -- An outage: a driver that is down and cannot connect makes the loop wait 1, 2, 4, 8 and 16 seconds and
  -- then 32 seconds each time, for as long as the outage lasts and nobody stops it; it never gives up, panics
  -- or blocks, the next wait goes on from there, and a request to stop ends it before the next turn.
  pub runtime_loop-outage :
      (ts : List Turn) (l : Loop D) (k : ℕ)
      → ((d : D) → drv.is_connected d ≡ false)
      → ((d : D) → (drv.connect d).0 ≡ false)
      → l.io_locked ≡ false
      → l.backoff ≡ level k
      → (runtime_loop ts l).0 ≡ waits_from k ts
  unfolding runtime_loop
  runtime_loop-outage [] l k off fails free b = refl
  runtime_loop-outage (t ∷ ts) l k off fails free b =
      let (n, b', free') = failed_turn t.moment l (off l.driver) (fails l.driver) free in
      let later =
        runtime_loop-outage ts (cycle lib drv dev t.moment l).0 (suc k) off fails free'
          (b' ∙ ap grow b ∙ grow-level k) in
      elim (Bool-cases t.stop_before) [
        | inl stopped ↦ rw (stopped, runtime_loop) refl
        | inr goes ↦ elim (Bool-cases t.stop_in_wait) [
          | inl stops ↦ rw (n, runtime_loop, goes, stops, b) refl
          | inr waits ↦ rw (n, runtime_loop, goes, waits, later, b) refl
        ]
      ]

  module _ (m : Moment) (l : Loop D) (on : drv.is_connected l.driver ≡ true)
      (done : l.setup_done ≡ true) (free : l.io_locked ≡ false)
      (polls : eq_bytes (to_lower dev.protocol_type) (codes "mqtt") ≡ false)
      (steps : has_poll_steps lib (or_nil (as_items (get dev.template (codes "steps"))))
        ≡ true) where
    abbrev pub polled : Result Fields × D
    polled =
        run_poll_steps lib drv m.canceled l.driver dev.template dev.template_variables
          l.state.step_results

    -- A poll that fails on a driver that is connected is reported as the state's error and followed by a
    -- wait of one second, whatever the backoff was: the turn resets it first.
    pub cycle-poll_failed :
        (e : Error) (metrics : RuntimeMetrics)
        → polled.0 ≡ err e
        → record_poll_latency (inc_poll_error l.metrics) m.latency ≡ ok metrics
        → ((cycle lib drv dev m l).1 ≡ wait (pos second))
          × ((cycle lib drv dev m l).0.state
              ≡ mark_error m.now l.state (format_exception lib dev (codes "poll") e))
    unfolding cycle connect_phase setup_phase run_phase poll_phase poll_failed report_error
        publish_state
    cycle-poll_failed e metrics r t = rw (on, done, free, polls, steps, r, t) (refl, refl)

    accepted :
        (steps : Fields) (l' : Loop D)
        → ((accept lib drv dev m steps l').state.status ≡ codes "online")
          × ((accept lib drv dev m steps l').state.error ≡ none)
          × ((accept lib drv dev m steps l').state.step_results ≡ steps)
    unfolding accept enter publish_state mark_online
    accepted steps l' =
        elim (Bool-cases (screen lib drv dev m (poll_output lib drv dev steps) l'.scan).0) [
          | inl shown ↦ rw (shown, accept) (refl, refl, refl)
          | inr hidden ↦ rw (hidden, accept) (refl, refl, refl)
        ]

    entered : Loop D
    entered = record l { driver = polled.1; backoff = second; setup_done = true }

    polled_turn :
        (results : Fields) (l' : Loop D)
        → polled.0 ≡ ok results
        → record l { driver = polled.1; backoff = second; setup_done = true } ≡ l'
        → cycle lib drv dev m l
          ≡ outcome lib drv dev (poll_ok lib drv dev m (accept lib drv dev m results l'))
    unfolding cycle connect_phase setup_phase run_phase poll_phase
    polled_turn results l' r h =
        rw (on, done, free, polls, steps, r)
          (ap (λ x. outcome lib drv dev (poll_ok lib drv dev m (accept lib drv dev m results x))) h)

    accepted-HasRoom :
        (results : Fields) (l' : Loop D)
        → HasRoom l'.metrics
        → HasRoom (accept lib drv dev m results l').metrics
    unfolding accept enter publish_state inc_published_event
    accepted-HasRoom results l' room =
        elim (Bool-cases (screen lib drv dev m (poll_output lib drv dev results) l'.scan).0) [
          | inl shown ↦ rw (shown, accept) room
          | inr hidden ↦ rw (hidden, accept) room
        ]

    poll_ok-rests :
        (l' : Loop D)
        → HasRoom l'.metrics
        → ((outcome lib drv dev (poll_ok lib drv dev m l')).1 ≡ wait (sleep_for lib drv dev m))
          × ((outcome lib drv dev (poll_ok lib drv dev m l')).0.state ≡ l'.state)
    unfolding poll_ok record_poll_latency inc_poll_cycle
    poll_ok-rests l' room = rw room (refl, refl)

    sleep_for-bound : pos (5 * millis) ≤ℤ sleep_for lib drv dev m
    sleep_for-bound = ground arith

    -- A poll that succeeds on a driver that is connected leaves the runtime online, without an error and
    -- with the new results of the steps, and is followed by a wait of five milliseconds at least.
    pub cycle-poll_ok :
        (results : Fields)
        → polled.0 ≡ ok results
        → HasRoom l.metrics
        → (d : ℤ) × ((cycle lib drv dev m l).1 ≡ wait d)
          × (pos (5 * millis) ≤ℤ d)
          × ((cycle lib drv dev m l).0.state.status ≡ codes "online")
          × ((cycle lib drv dev m l).0.state.error ≡ none)
          × ((cycle lib drv dev m l).0.state.step_results ≡ results)
    unfolding entered
    cycle-poll_ok results r room =
        let l' = accept lib drv dev m results entered in
        let (w, s) = poll_ok-rests l' (accepted-HasRoom results entered room) in
        let (status, error, kept) = accepted results entered in
        rw (polled_turn results entered r refl, s)
          (sleep_for lib drv dev m, w, sleep_for-bound, status, error, kept)
