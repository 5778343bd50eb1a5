-- ===== src/EventBus/Order.antt =====
-- A burst of messages: what each subscriber holds afterwards, and what is counted.
use quantix_cnnector_go.Prelude.{
  ℕ, ◌+◌, ◌^◌, ◌<◌, ◌≡◌, false, some, List, [], ◌∷◌, ◌++◌, map, append_assoc, arith, ==_iff, length,
  keep_last, keep_last_all, keep_last-append, length-keep_last, append-nil,
}
use quantix_cnnector_go.Value.{Fields}
use quantix_cnnector_go.Value.Maps.{clone}
use quantix_cnnector_go.EventBus.{
  EventBus, Channel, Rival, find_queue, deliver, deliver_all, publish, quiet,
}
use quantix_cnnector_go.EventBus.Delivery.{IsBounded, deliver-keep_last, deliver_conserves}

abbrev pub undisturbed : ℕ → Rival
undisturbed i = quiet

-- The bus after a list of messages, oldest first.
abbrev pub publish_all : EventBus → List Fields → EventBus
publish_all b [] = b
publish_all b (m ∷ ms) = publish_all (publish undisturbed b m) ms

find_queue-deliver_all :
    (i : ℕ) (m : Fields) (qs : List (ℕ × Channel)) {ch : Channel}
    → find_queue i qs ≡ some ch
    → find_queue i (deliver_all undisturbed m qs).0 ≡ some (deliver quiet (clone m) ch).0
unfolding find_queue deliver_all
find_queue-deliver_all i m [] h = cc
find_queue-deliver_all i m ((j, ch') ∷ qs) {ch} h =
    ground (arith, ==_iff j i, find_queue-deliver_all i m qs {ch = ch})

-- Drop-oldest, over any burst: an open subscriber with room for at least one message, who reads
-- nothing, holds in the end the last `capacity` of the messages that it held followed by the copies
-- of those published, in the order of publication; its capacity stays, and it stays open.
pub publish_all-keep_last :
    (ms : List Fields) (b : EventBus) (i : ℕ) (ch : Channel)
    → find_queue i b.queues ≡ some ch
    → ch.closed ≡ false
    → 0 < ch.capacity
    → IsBounded ch
    → find_queue i (publish_all b ms).queues
      ≡ some (record ch { buffer = keep_last ch.capacity (ch.buffer ++ map clone ms) })
unfolding publish
publish_all-keep_last [] b i ch h o p f =
    ground (arith, append-nil ch.buffer, keep_last_all ch.capacity ch.buffer f)
publish_all-keep_last (m ∷ ms) b i ch h o p f =
    let kept : List Fields = keep_last ch.capacity (ch.buffer ++ clone m ∷ []) in
    let ch' : Channel = record ch { buffer = kept } in
    let found : find_queue i (publish undisturbed b m).queues ≡ some ch' = ground (
      arith,
      find_queue-deliver_all i m b.queues {ch = ch},
      deliver-keep_last (clone m) ch o p f,
    ) in
    rw (
      publish_all-keep_last ms (publish undisturbed b m) i ch' found o p
          (omega (arith, length-keep_last ch.capacity (ch.buffer ++ clone m ∷ []))),
      keep_last-append ch.capacity (ch.buffer ++ clone m ∷ []) (map clone ms),
      append_assoc ch.buffer (clone m ∷ []) (map clone ms),
    )

-- All the messages that the bus's channels hold.
abbrev pub held : List (ℕ × Channel) → ℕ
held [] = 0
held ((i, ch) ∷ qs) = length ch.buffer + held qs

abbrev pub AllBounded : List (ℕ × Channel) → Type 0
AllBounded [] = Unit {0}
AllBounded ((i, ch) ∷ qs) = IsBounded ch × AllBounded qs

deliver_all_conserves :
    (m : Fields) (qs : List (ℕ × Channel))
    → AllBounded qs
    → (deliver_all undisturbed m qs).1 + held (deliver_all undisturbed m qs).0 ≡ held qs + length qs
unfolding deliver_all
deliver_all_conserves m [] h = omega arith
deliver_all_conserves m ((i, ch) ∷ qs) h =
    omega (arith, deliver_conserves (clone m) ch h.0, deliver_all_conserves m qs h.1)

-- A message that nobody interferes with is accounted for once for each subscriber: the bus counts it
-- as sent, and what the channels hold more and the dropped counter add up to one message for each
-- channel, closed channels and channels of capacity 0 included, as long as the counters do not wrap.
pub publish_conserves :
    (b : EventBus) (m : Fields)
    → AllBounded b.queues
    → b.sent + 1 < 2 ^ 64
    → b.dropped + held b.queues + length b.queues < 2 ^ 64
    → ((publish undisturbed b m).sent ≡ b.sent + 1)
      × ((publish undisturbed b m).dropped + held (publish undisturbed b m).queues
          ≡ b.dropped + held b.queues + length b.queues)
unfolding publish
publish_conserves b m h s d = (omega arith, omega (arith, deliver_all_conserves m b.queues h))
