-- ===== src/EventBus/Lifecycle.antt =====
-- Every history of the bus: subscribers come and go, publishers and receivers interleave.
use quantix_cnnector_go.Prelude.{
  ℕ, suc, ◌<◌, ◌≡◌, refl, ◌∙◌, false, none, List, [], ◌∷◌, ◌++◌, arith, ◌==◌, ==_iff,
}
use quantix_cnnector_go.Prelude.Int.{ℤ, pos, negsuc}
use quantix_cnnector_go.Value.{Fields}
use quantix_cnnector_go.Value.Maps.{clone}
use quantix_cnnector_go.EventBus.{
  EventBus, Channel, Rival, new_event_bus, subscribe, unsubscribe, remove_queue, find_queue,
  deliver_all, publish, receive_from, receive,
}
use quantix_cnnector_go.EventBus.Delivery.{IsBounded, IsFair, deliver-IsBounded, drop-Within}

abbrev pub Missing : ℕ → List (ℕ × Channel) → Type 0
Missing i [] = Unit {0}
Missing i ((j, ch) ∷ qs) = ((j == i) ≡ false) × Missing i qs

-- Below the next identity, distinct, of the bus's size and within it.
abbrev pub AllValid : ℕ → ℕ → List (ℕ × Channel) → Type 0
AllValid size next [] = Unit {0}
AllValid size next ((i, ch) ∷ qs) =
    (i < next) × (ch.capacity ≡ size) × IsBounded ch × Missing i qs × AllValid size next qs

pub record IsValid (b : EventBus) : Type 0 where
  pub room : 0 < b.max_size
  pub valid : AllValid b.max_size b.next_id b.queues

pub data Step : EventBus → EventBus → Type 0 where
  subscribes : (b : EventBus) → Step b (subscribe b).0
  unsubscribes : (b : EventBus) (i : ℕ) → Step b (unsubscribe b i)
  publishes :
      (b : EventBus) (rivals : ℕ → Rival) (m : Fields)
      → ((i : ℕ) → IsFair (rivals i))
      → Step b (publish rivals b m)
  receives : (b : EventBus) (i : ℕ) → Step b (receive b i)

pub data Reach (s : EventBus) : EventBus → Type 0 where
  here : Reach s s
  next : {b b' : EventBus} → Reach s b → Step b b' → Reach s b'

pub new_event_bus-IsValid : (n : ℤ) → IsValid (new_event_bus n)
unfolding new_event_bus
new_event_bus-IsValid (pos n) = ground arith
new_event_bus-IsValid (negsuc n) = ground arith

pub Missing-above : (size n : ℕ) (qs : List (ℕ × Channel)) → AllValid size n qs → Missing n qs
Missing-above size n [] h = tt
Missing-above size n ((i, ch) ∷ qs) h = (ground (arith, h.0), Missing-above size n qs h.4)

Missing-snoc :
    (i j : ℕ) (ch : Channel) (qs : List (ℕ × Channel))
    → Missing i qs
    → (j == i) ≡ false
    → Missing i (qs ++ (j, ch) ∷ [])
Missing-snoc i j ch [] h e = (e, tt)
Missing-snoc i j ch (q ∷ qs) h e = (h.0, Missing-snoc i j ch qs h.1 e)

AllValid-snoc :
    (size n : ℕ) (qs : List (ℕ × Channel))
    → AllValid size n qs
    → AllValid size
        (suc n)
        (qs ++ (n, record { capacity = size; buffer = []; closed = false }) ∷ [])
AllValid-snoc size n [] h = (omega arith, refl, omega arith, tt, tt)
AllValid-snoc size n ((i, ch) ∷ qs) h = (
  omega arith,
  h.1,
  h.2,
  Missing-snoc i n _ qs h.3 (ground (arith, h.0)),
  AllValid-snoc size n qs h.4,
)

Missing-remove : (i j : ℕ) (qs : List (ℕ × Channel)) → Missing i qs → Missing i (remove_queue j qs)
unfolding remove_queue
Missing-remove i j [] h = tt
Missing-remove i j ((k, ch) ∷ qs) h = ground (arith, Missing-remove i j qs h.1)

AllValid-remove :
    (size n j : ℕ) (qs : List (ℕ × Channel))
    → AllValid size n qs
    → AllValid size n (remove_queue j qs)
unfolding remove_queue
AllValid-remove size n j [] h = tt
AllValid-remove size n j ((k, ch) ∷ qs) h =
    ground (arith, AllValid-remove size n j qs h.4, Missing-remove k j qs h.3)

Missing-deliver :
    (rivals : ℕ → Rival) (m : Fields) (i : ℕ) (qs : List (ℕ × Channel))
    → Missing i qs
    → Missing i (deliver_all rivals m qs).0
unfolding deliver_all
Missing-deliver rivals m i [] h = tt
Missing-deliver rivals m i ((k, ch) ∷ qs) h = (h.0, Missing-deliver rivals m i qs h.1)

AllValid-deliver :
    (rivals : ℕ → Rival) (m : Fields) (size n : ℕ) (qs : List (ℕ × Channel))
    → ((i : ℕ) → IsFair (rivals i))
    → AllValid size n qs
    → AllValid size n (deliver_all rivals m qs).0
unfolding deliver_all
AllValid-deliver rivals m size n [] f h = tt
AllValid-deliver rivals m size n ((k, ch) ∷ qs) f h =
    let d = deliver-IsBounded (rivals k) (clone m) (f k) ch h.2 in
    (
      h.0,
      d.1 ∙ h.1,
      d.0,
      Missing-deliver rivals m k qs h.3,
      AllValid-deliver rivals m size n qs f h.4,
    )

Missing-receive : (i j : ℕ) (qs : List (ℕ × Channel)) → Missing i qs → Missing i (receive_from j qs)
unfolding receive_from
Missing-receive i j [] h = tt
Missing-receive i j ((k, ch) ∷ qs) h = ground (arith, Missing-receive i j qs h.1)

AllValid-receive :
    (size n j : ℕ) (qs : List (ℕ × Channel))
    → AllValid size n qs
    → AllValid size n (receive_from j qs)
unfolding receive_from
AllValid-receive size n j [] h = tt
AllValid-receive size n j ((k, ch) ∷ qs) h =
    ground (arith, AllValid-receive size n j qs h.4, Missing-receive k j qs h.3, drop-Within ch h.2)

pub Step-IsValid : {b b' : EventBus} → Step b b' → IsValid b → IsValid b'
unfolding subscribe unsubscribe publish receive
Step-IsValid (subscribes b) v = record {
  room = v.room;
  valid = AllValid-snoc b.max_size b.next_id b.queues v.valid;
}
Step-IsValid (unsubscribes b i) v = record {
  room = v.room;
  valid = AllValid-remove b.max_size b.next_id i b.queues v.valid;
}
Step-IsValid (publishes b rivals m f) v = record {
  room = v.room;
  valid = AllValid-deliver rivals m b.max_size b.next_id b.queues f v.valid;
}
Step-IsValid (receives b i) v = record {
  room = v.room;
  valid = AllValid-receive b.max_size b.next_id i b.queues v.valid;
}

Reach-IsValid : {s b : EventBus} → IsValid s → Reach s b → IsValid b
Reach-IsValid h here = h
Reach-IsValid h (next r st) = Step-IsValid st (Reach-IsValid h r)

-- After any history of a new bus, of whatever size it was asked for, its channels have distinct
-- identities, all are of the bus's size, which is not 0, and none holds more than that.
pub new_event_bus-Reach : (n : ℤ) (b : EventBus) → Reach (new_event_bus n) b → IsValid b
new_event_bus-Reach n b r = Reach-IsValid (new_event_bus-IsValid n) r

remove-snoc :
    (i : ℕ) (ch : Channel) (qs : List (ℕ × Channel))
    → Missing i qs
    → remove_queue i (qs ++ (i, ch) ∷ []) ≡ qs
unfolding remove_queue
remove-snoc i ch [] h = ground (arith, ==_iff i i)
remove-snoc i ch ((j, d) ∷ qs) h = ground (arith, remove-snoc i ch qs h.1)

pub find-remove :
    (size n i : ℕ) (qs : List (ℕ × Channel))
    → AllValid size n qs
    → find_queue i (remove_queue i qs) ≡ none
unfolding find_queue remove_queue
find-remove size n i [] h = refl
find-remove size n i ((j, ch) ∷ qs) h =
    ground (arith, find-remove size n i qs h.4, find-missing i qs, ==_iff j i)
  where
    find-missing : (k : ℕ) (rs : List (ℕ × Channel)) → Missing k rs → find_queue k rs ≡ none
    find-missing k [] g = refl
    find-missing k ((l, d) ∷ rs) g = ground (arith, find-missing k rs g.1)

-- In a valid bus, unsubscribing the channel that Subscribe just returned restores the channels as they
-- were, and after unsubscribing a channel the bus does not hold it any more.
pub unsubscribe-subscribe :
    (b : EventBus) (i : ℕ)
    → IsValid b
    → ((unsubscribe (subscribe b).0 (subscribe b).1).queues ≡ b.queues)
      × (find_queue i (unsubscribe b i).queues ≡ none)
unfolding subscribe unsubscribe
unsubscribe-subscribe b i v = (
  remove-snoc b.next_id _ b.queues (Missing-above b.max_size b.next_id b.queues v.valid),
  find-remove b.max_size b.next_id i b.queues v.valid,
)
