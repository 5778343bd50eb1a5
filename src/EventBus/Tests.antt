-- ===== src/EventBus/Tests.antt =====
-- Runs of the event bus (internal/service/event_bus.go) on concrete messages.
use quantix_cnnector_go.Prelude.{ℕ, ◌≡◌, refl, true, false, some, [], ◌∷◌, arith}
use quantix_cnnector_go.Prelude.Int.{pos}
use quantix_cnnector_go.Prelude.Text.{codes}
use quantix_cnnector_go.Value.{Fields, end, field, int}
use quantix_cnnector_go.Value.Maps.{clone}
use quantix_cnnector_go.EventBus.{
  EventBus, Channel, Rival, new_event_bus, subscribe, publish, find_queue,
}
use quantix_cnnector_go.EventBus.Delivery.{IsFair, quiet-IsFair}
use quantix_cnnector_go.EventBus.Order.{undisturbed, publish_all, publish_all-keep_last}
use quantix_cnnector_go.EventBus.Lifecycle.{
  IsValid, here, next, subscribes, publishes, new_event_bus-Reach,
}

abbrev message : ℕ → Fields
message n = field (codes "device_id") (int (pos n)) end

abbrev two_held : Channel
two_held = record { capacity = 2; buffer = message 1 ∷ message 2 ∷ []; closed = false }

-- Two subscribers: one is full, the other has closed its channel.
abbrev busy : EventBus
busy = record {
  queues =
      (0, two_held) ∷ (3, record { capacity = 2; buffer = message 1 ∷ []; closed = true }) ∷ [];
  max_size = 2;
  dropped = 5;
  sent = 8;
  next_id = 4;
}

busy-IsValid : IsValid busy
busy-IsValid = record {
  room = omega arith;
  valid = (omega arith, refl, omega arith, (refl, tt), (omega arith, refl, omega arith, tt, tt));
}

-- A receiver that empties the channel while Publish makes room.
abbrev emptied : Channel → Channel
emptied ch = record ch { buffer = [] }

abbrev reader : Rival
reader = record { before_drop = emptied; before_resend = λ ch. ch }

reader-IsFair : IsFair reader
reader-IsFair = record {
  before_drop = record { bounded = λ ch b. omega arith; capacity = λ ch. refl };
  before_resend = record { bounded = λ ch b. b; capacity = λ ch. refl };
}

publish_all-keep_last_example :
    find_queue 0 (publish_all busy (message 3 ∷ message 4 ∷ message 5 ∷ [])).queues
    ≡ some (record two_held { buffer = message 4 ∷ message 5 ∷ [] })
unfolding find_queue clone
publish_all-keep_last_example =
    publish_all-keep_last (message 3 ∷ message 4 ∷ message 5 ∷ []) busy 0 two_held refl refl
      (omega arith) (omega arith)

abbrev opened : EventBus
opened = (subscribe (new_event_bus (pos 0))).0

new_event_bus-Reach_example :
    IsValid (publish undisturbed (subscribe (new_event_bus (pos 0))).0 (message 1))
new_event_bus-Reach_example = new_event_bus-Reach (pos 0) (publish undisturbed opened (message 1)) (
    next (next here (subscribes (new_event_bus (pos 0))))
      (publishes opened undisturbed (message 1) (λ i. quiet-IsFair)))
