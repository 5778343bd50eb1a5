-- ===== src/Api/Stream/World.antt =====
-- A websocket and the bus, round by round (internal/api/websocket.go over internal/service/event_bus.go).
use mathlib.Core.List.{Sublist}
use quantix_cnnector_go.Prelude.{
  ℕ, ◌≤◌, ◌≡◌, Bool, true, false, none, some, List, [], ◌∷◌, ◌++◌, map, ◌==◌, length,
}
use quantix_cnnector_go.Value.{Fields}
use quantix_cnnector_go.Value.Maps.{clone}
use quantix_cnnector_go.EventBus.{
  EventBus, Channel, subscribe, unsubscribe, find_queue, receive, publish,
}
use quantix_cnnector_go.EventBus.Delivery.{IsBounded}
use quantix_cnnector_go.EventBus.Order.{undisturbed}
use quantix_cnnector_go.Api.Stream.{Stream, subscribed, on_message, on_ping}

-- A stream and what was published since it subscribed.
pub record World : Type 0 where
  pub stream : Stream
  pub published : List Fields

abbrev pub with_bus : World → EventBus → World
with_bus w b = record w { stream = record w.stream { bus = b } }

-- A move of the handler, or of others on the bus while the handler runs; publishes do not overlap,
-- and no other goroutine receives from this channel or unsubscribes it.
pub data Move (w : World) : World → Type 0 where
  sends :
      (writes : Bool) {s : Stream}
      → on_message w.stream writes ≡ some s
      → Move w (record w { stream = s })
  pings : (writes : Bool) → Move w (record w { stream = on_ping w.stream writes })
  published :
      (m : Fields)
      → Move w (record {
        stream = record w.stream { bus = publish undisturbed w.stream.bus m };
        published = w.published ++ m ∷ [];
      })
  joins : Move w (with_bus w (subscribe w.stream.bus).0)
  leaves :
      (j : ℕ) → (j == w.stream.queue) ≡ false → Move w (with_bus w (unsubscribe w.stream.bus j))
  reads : (j : ℕ) → (j == w.stream.queue) ≡ false → Move w (with_bus w (receive w.stream.bus j))

-- The worlds of a stream that subscribed to this bus.
pub data Reach (b : EventBus) : World → Type 0 where
  opens : Reach b (record { stream = subscribed (subscribe b); published = [] })
  goes_on : {w w' : World} → Reach b w → w.stream.running ≡ true → Move w w' → Reach b w'

-- While it runs, its channel is on the bus and open, and what was sent and what waits are published
-- messages in their order, all of them while these are not more than the size of the bus; once it has
-- ended the bus has no such channel.
pub data IsServed (size : ℕ) (w : World) : Type 0 where
  live :
      (ch : Channel)
      → w.stream.running ≡ true
      → find_queue w.stream.queue w.stream.bus.queues ≡ some ch
      → ch.closed ≡ false
      → ch.capacity ≡ size
      → IsBounded ch
      → Sublist (w.stream.sent ++ ch.buffer) (map clone w.published)
      → (length w.published ≤ size → w.stream.sent ++ ch.buffer ≡ map clone w.published)
      → IsServed size w
  over :
      w.stream.running ≡ false
      → find_queue w.stream.queue w.stream.bus.queues ≡ none
      → Sublist w.stream.sent (map clone w.published)
      → IsServed size w
