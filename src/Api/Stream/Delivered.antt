-- ===== src/Api/Stream/Delivered.antt =====
-- What a client of the websocket is sent (internal/api/websocket.go over internal/service/event_bus.go).
use mathlib.Core.List.Sublist
use quantix_cnnector_go.Prelude.{
  ℕ, ◌<◌, ◌≡◌, refl, subst, ◌∙◌, Bool, true, false, Option, none, some, List, [], ◌∷◌, arith,
}
use quantix_cnnector_go.Value.{Fields}
use quantix_cnnector_go.EventBus.{EventBus, Channel, subscribe, find_queue, receive}
use quantix_cnnector_go.EventBus.Delivery.{quiet-IsFair}
use quantix_cnnector_go.EventBus.Order.{undisturbed}
use quantix_cnnector_go.EventBus.Lifecycle.{
  IsValid, subscribes, unsubscribes, publishes, receives, Step-IsValid,
}
use quantix_cnnector_go.EventBus.Channels.{
  find-subscribe, find-subscribe_new, find-unsubscribe_ne, find-receive_ne,
}
use quantix_cnnector_go.Api.Stream.{
  Stream, subscribed, ended, written, taken, from_queue, on_message, on_ping,
}
use quantix_cnnector_go.Api.Stream.World.{
  World, Move, sends, pings, published, joins, leaves, reads, Reach, opens, goes_on, IsServed, live,
  over,
}
use quantix_cnnector_go.Api.Stream.Rounds.{
  on_message-IsServed, on_ping-IsServed, publish-IsServed, bus-IsServed, sent-Sublist,
}

ended-IsValid : (s : Stream) → IsValid s.bus → IsValid (ended s).bus
unfolding ended
ended-IsValid s v = Step-IsValid (unsubscribes s.bus s.queue) v

written-IsValid :
    (s : Stream) (m : Fields) (writes : Bool) → IsValid s.bus → IsValid (written s m writes).bus
written-IsValid s m true v = Step-IsValid (receives s.bus s.queue) v
written-IsValid s m false v =
    ended-IsValid (record s { bus = receive s.bus s.queue })
      (Step-IsValid (receives s.bus s.queue) v)

taken-IsValid :
    (s : Stream) (buf : List Fields) (closed writes : Bool) (s' : Stream)
    → IsValid s.bus
    → taken s buf closed writes ≡ some s'
    → IsValid s'.bus
taken-IsValid s (m ∷ rest) closed writes s' v e =
    let same : written s m writes ≡ s' = cc in
    subst (λ t. IsValid t.bus) same (written-IsValid s m writes v)
taken-IsValid s [] true writes s' v e =
    let same : ended s ≡ s' = cc in subst (λ t. IsValid t.bus) same (ended-IsValid s v)
taken-IsValid s [] false writes s' v e = cc

found-IsValid :
    (s : Stream) (o : Option Channel) (writes : Bool) (s' : Stream)
    → IsValid s.bus
    → from_queue s o writes ≡ some s'
    → IsValid s'.bus
found-IsValid s none writes s' v e = cc
found-IsValid s (some ch) writes s' v e = taken-IsValid s ch.buffer ch.closed writes s' v e

on_ping-IsValid : (s : Stream) (writes : Bool) → IsValid s.bus → IsValid (on_ping s writes).bus
unfolding on_ping
on_ping-IsValid s true v = v
on_ping-IsValid s false v = ended-IsValid s v

Move-IsValid : {w w' : World} → Move w w' → IsValid w.stream.bus → IsValid w'.stream.bus
unfolding on_message
Move-IsValid {w} (sends writes k) v =
    found-IsValid w.stream (find_queue w.stream.queue w.stream.bus.queues) writes _ v k
Move-IsValid {w} (pings writes) v = on_ping-IsValid w.stream writes v
Move-IsValid {w} (published m) v =
    Step-IsValid (publishes w.stream.bus undisturbed m (λ i. quiet-IsFair)) v
Move-IsValid {w} joins v = Step-IsValid (subscribes w.stream.bus) v
Move-IsValid {w} (leaves j n) v = Step-IsValid (unsubscribes w.stream.bus j) v
Move-IsValid {w} (reads j n) v = Step-IsValid (receives w.stream.bus j) v

Move-IsServed :
    {size : ℕ} {w w' : World}
    → 0 < size
    → w.stream.running ≡ true
    → Move w w'
    → IsValid w.stream.bus
    → IsServed size w
    → IsServed size w'
Move-IsServed p r m v (over r' f o) = cc
Move-IsServed {size} {w} p r (sends writes k) v (live ch _ f o c b sub all) =
    on_message-IsServed size w v writes _ ch r f o c b sub all k
Move-IsServed {size} {w} p r (pings writes) v h =
    on_ping-IsServed size w v writes h (sent-Sublist h)
Move-IsServed {size} {w} p r (published m) v (live ch _ f o c b sub all) =
    publish-IsServed size w v m ch p r f o c b sub all
Move-IsServed {size} {w} p r joins v h =
    bus-IsServed size w v _ (λ ch f. find-subscribe w.stream.queue w.stream.bus f) r h
Move-IsServed {size} {w} p r (leaves j n) v h =
    bus-IsServed size w v _ (λ ch f. find-unsubscribe_ne w.stream.queue w.stream.bus j n ∙ f) r h
Move-IsServed {size} {w} p r (reads j n) v h =
    bus-IsServed size w v _ (λ ch f. find-receive_ne w.stream.queue w.stream.bus j n ∙ f) r h

-- A new channel.
opened-IsServed :
    (b : EventBus)
    → IsValid b
    → IsServed b.max_size (record { stream = subscribed (subscribe b); published = [] })
opened-IsServed b v =
    live (record { capacity = b.max_size; buffer = []; closed = false }) refl
      (find-subscribe_new b v) refl refl (omega arith) (Sublist.refl []) (λ n. refl)

Reach-both :
    {b : EventBus} {w : World}
    → IsValid b
    → Reach b w
    → IsValid w.stream.bus × IsServed b.max_size w
Reach-both {b} v opens = (Step-IsValid (subscribes b) v, opened-IsServed b v)
Reach-both v (goes_on path r m) =
    let (u, h) = Reach-both v path in (Move-IsValid m u, Move-IsServed v.room r m u h)

-- A client of the websocket gets, in the order of publication and none twice, messages that were
-- published while it was connected: what was sent and what waits in its channel are part of them, and
-- all of them while they are not more than the bus's size. Others publish, one at a time, subscribe,
-- leave and read, and writes fail, at any time. When the handler ends the bus has its channel no more.
pub Reach-IsServed : {b : EventBus} {w : World} → IsValid b → Reach b w → IsServed b.max_size w
Reach-IsServed v path = (Reach-both v path).1
