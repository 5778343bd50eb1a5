-- ===== src/Manager/Loop/Published.antt =====
-- What a turn of the loop tells the event bus (runRuntimeLoop).
use quantix_cnnector_go.Prelude.{◌≡◌, refl, [], ◌∷◌, ◌++◌, ap, ◌⊎◌, inl, inr, Bool-cases, arith}
use quantix_cnnector_go.Prelude.Int.{ℤ}
use quantix_cnnector_go.Value.{Fields, Libs, as_items, Result, ok, err, panic, Error}
use quantix_cnnector_go.Driver.{Driver}
use quantix_cnnector_go.Prelude.Text.{codes, eq_bytes, to_lower}
use quantix_cnnector_go.Executor.Poll.{or_nil, run_setup_steps, run_poll_steps}
use quantix_cnnector_go.Metrics.{
  RuntimeMetrics, next_u64, inc_poll_cycle, inc_poll_error, inc_reconnect, inc_published_event,
  record_poll_latency,
}
use quantix_cnnector_go.Runtime.{to_message}
use quantix_cnnector_go.Value.Maps.{get}
use quantix_cnnector_go.Manager.Units.{has_poll_steps}
use quantix_cnnector_go.Manager.Device.{Device}
use quantix_cnnector_go.Manager.Loop.{
  timed, rest, back_off, followed_by, outcome, Loop, Moment, Phase, go_on, ends, publish_state,
  fail_connect, connect_phase, report_error, setup_phase, idle_phase, accept, enter, screen,
  poll_output, poll_ok, poll_failed, poll_phase, run_phase, cycle,
}

pub latency-published :
    (m m' : RuntimeMetrics) (d : ℤ)
    → record_poll_latency m d ≡ ok m'
    → m'.published_events ≡ m.published_events
unfolding record_poll_latency
latency-published m m' d h = ground arith

pub Result-cases :
    {A : Type 0} (r : Result A)
    → ((a : A) × (r ≡ ok a)) ⊎ (((e : Error) × (r ≡ err e)) ⊎ (r ≡ panic))
Result-cases (ok a) = inl (a, refl)
Result-cases (err e) = inr (inl (e, refl))
Result-cases panic = inr (inr refl)

module _ (lib : Libs) {D : Type 0} where
  abbrev pub Quiet : Loop D → Loop D → Type 0
  Quiet l l' =
      (l'.published ≡ l.published) × (l'.metrics.published_events ≡ l.metrics.published_events)

  -- One message more, which says what the state says in the end.
  abbrev pub Told : Loop D → Loop D → Type 0
  Told l l' =
      (l'.published ≡ l.published ++ (to_message lib l'.state ∷ []))
      × (l'.metrics.published_events ≡ next_u64 l.metrics.published_events)

  abbrev pub Tells : Loop D → Loop D → Type 0
  Tells l l' = Quiet l l' ⊎ Told l l'

  abbrev PhaseTells : Loop D → Phase D → Type 0
  PhaseTells l (go_on l') = Quiet l l'
  PhaseTells l (ends l' n) = Tells l l'

  module _ (drv : Driver D) (dev : Device) where
    connect_phase-Tells : (m : Moment) (l : Loop D) → PhaseTells l (connect_phase lib drv dev m l)
    unfolding connect_phase fail_connect publish_state inc_reconnect inc_published_event
    connect_phase-Tells m l = elim (Bool-cases (drv.is_connected l.driver)) [
      | inl e ↦ rw (e, connect_phase) (refl, refl)
      | inr e ↦ elim (Bool-cases l.io_locked) [
        | inl locked ↦ rw (e, locked, connect_phase) (inl (refl, refl))
        | inr free ↦ elim (Bool-cases (drv.connect l.driver).0) [
          | inl c ↦ rw (e, free, c, connect_phase) (refl, refl)
          | inr c ↦ rw (e, free, c, connect_phase) (inr (refl, refl))
        ]
      ]
    ]

    setup_phase-Tells : (m : Moment) (l : Loop D) → PhaseTells l (setup_phase lib drv dev m l)
    unfolding setup_phase report_error publish_state inc_published_event
    setup_phase-Tells m l = elim (Bool-cases l.setup_done) [
      | inl e ↦ rw (e, setup_phase) (refl, refl)
      | inr e ↦ elim (Bool-cases l.io_locked) [
        | inl locked ↦ rw (e, locked, setup_phase) (inl (refl, refl))
        | inr free ↦
            elim (Result-cases
              (run_setup_steps lib drv m.canceled l.driver dev.template dev.template_variables).0) [
                | inl (steps, r) ↦ rw (e, free, r, setup_phase) (refl, refl)
                | inr (inl (x, r)) ↦ rw (e, free, r, setup_phase) (inr (refl, refl))
                | inr (inr r) ↦ rw (e, free, r, setup_phase) (inl (refl, refl))
              ]
      ]
    ]

    idle_phase-Tells : (m : Moment) (l : Loop D) → PhaseTells l (idle_phase lib drv dev m l)
    unfolding idle_phase publish_state inc_published_event
    idle_phase-Tells m l = elim (Bool-cases l.io_locked) [
      | inl locked ↦ rw (locked, idle_phase) (inl (refl, refl))
      | inr free ↦ elim (Bool-cases (eq_bytes l.state.status (codes "online"))) [
        | inl online ↦ rw (free, idle_phase, online) (inl (refl, refl))
        | inr other ↦ rw (free, idle_phase, other) (inr (refl, refl))
      ]
    ]

    enter-Quiet : (m : Moment) (steps : Fields) (l : Loop D) → Quiet l (enter lib drv dev m steps l)
    unfolding enter
    enter-Quiet m steps l = (refl, refl)

    accept-Tells :
        (m : Moment) (steps : Fields) (l : Loop D) → Tells l (accept lib drv dev m steps l)
    unfolding accept publish_state inc_published_event
    accept-Tells m steps l =
        let (p, q) = enter-Quiet m steps l in
        elim (Bool-cases (screen lib drv dev m (poll_output lib drv dev steps) l.scan).0) [
          | inl shown ↦ rw (shown, accept) (inr (rw (p, q) (refl, refl)))
          | inr hidden ↦ rw (hidden, accept) (inl (p, q))
        ]

    timed-Tells :
        (l l' : Loop D) (r : Result RuntimeMetrics) (f : Loop D → Phase D)
        → Tells l l'
        → ((m : RuntimeMetrics) → r ≡ ok m → PhaseTells l (f (record l' { metrics = m })))
        → PhaseTells l (timed lib drv dev l' r f)
    timed-Tells l l' (ok m) f h g = g m refl
    timed-Tells l l' (err e) f h g = h
    timed-Tells l l' panic f h g = h

    poll_ok-Tells :
        (m : Moment) (l l' : Loop D) → Tells l l' → PhaseTells l (poll_ok lib drv dev m l')
    unfolding poll_ok inc_poll_cycle
    poll_ok-Tells m l l' h =
        let counted = inc_poll_cycle l'.metrics in
        timed-Tells l (record l' { metrics = counted }) (record_poll_latency counted m.latency)
          (rest lib drv dev m) h
          (λ m' r. ground (arith, latency-published counted m' m.latency r, h))

    poll_failed-Tells :
        (m : Moment) (e : Error) (l : Loop D) → PhaseTells l (poll_failed lib drv dev m e l)
    unfolding poll_failed inc_poll_error report_error publish_state inc_published_event
    poll_failed-Tells m e l =
        let counted = inc_poll_error l.metrics in
        timed-Tells l (record l { metrics = counted }) (record_poll_latency counted m.latency)
          (back_off lib drv dev m e) (inl (refl, refl))
          (λ m' r. inr (refl, ap next_u64 (latency-published counted m' m.latency r)))

    poll_phase-Tells : (m : Moment) (l : Loop D) → PhaseTells l (poll_phase lib drv dev m l)
    unfolding poll_phase
    poll_phase-Tells m l = elim (Bool-cases l.io_locked) [
      | inl locked ↦ rw (locked, poll_phase) (inl (refl, refl))
      | inr free ↦
          elim (Result-cases
            (run_poll_steps lib drv m.canceled l.driver dev.template dev.template_variables
              l.state.step_results).0) [
                | inl (steps, r) ↦
                    rw (free, r, poll_phase)
                      (poll_ok-Tells m l _ (accept-Tells m steps (record l { driver = _ })))
                | inr (inl (x, r)) ↦
                    rw (free, r, poll_phase) (poll_failed-Tells m x (record l { driver = _ }))
                | inr (inr r) ↦ rw (free, r, poll_phase) (inl (refl, refl))
              ]
    ]

    run_phase-Tells : (m : Moment) (l : Loop D) → PhaseTells l (run_phase lib drv dev m l)
    unfolding run_phase
    run_phase-Tells m l = elim (Bool-cases (eq_bytes (to_lower dev.protocol_type) (codes "mqtt"))) [
      | inl mqtt ↦ rw (mqtt, run_phase) (inl (refl, refl))
      | inr other ↦
          elim (Bool-cases
            (has_poll_steps lib (or_nil (as_items (get dev.template (codes "steps")))))) [
              | inl steps ↦ rw (other, steps, run_phase) (poll_phase-Tells m l)
              | inr none' ↦ rw (other, none', run_phase) (idle_phase-Tells m l)
            ]
    ]

    followed_by-Tells :
        (l : Loop D) (p : Phase D) (f : Loop D → Phase D)
        → PhaseTells l p
        → ((l' : Loop D) → PhaseTells l' (f l'))
        → PhaseTells l (followed_by lib drv dev p f)
    followed_by-Tells l (ends l' n) f h g = h
    followed_by-Tells l (go_on l') f h g = after (f l') (g l')
      where
        after : (p : Phase D) → PhaseTells l' p → PhaseTells l p
        after (go_on l'') (a, b) = (ground arith, ground arith)
        after (ends l'' n) (inl (a, b)) = inl (ground arith, ground arith)
        after (ends l'' n) (inr (a, b)) = inr (ground arith, ground arith)

    -- A turn of the loop, on every branch and however it ends, tells the bus nothing, or one message, which
    -- says what the state of the runtime says after the turn; the counter of published events moves with it.
    pub cycle-Tells : (m : Moment) (l : Loop D) → Tells l (cycle lib drv dev m l).0
    unfolding cycle
    cycle-Tells m l = ended _ (
        followed_by-Tells l _ (run_phase lib drv dev m)
          (followed_by-Tells l _ (setup_phase lib drv dev m) (connect_phase-Tells m l)
            (setup_phase-Tells m))
          (run_phase-Tells m))
      where
        ended : (p : Phase D) → PhaseTells l p → Tells l (outcome lib drv dev p).0
        ended (go_on l') h = inl h
        ended (ends l' n) h = h
