-- ===== src/EventBus/Channels.antt =====
-- What the operations of the bus do to one channel.
use quantix_cnnector_go.Prelude.{
  ℕ, ◌≡◌, refl, ◌∙◌, false, none, some, List, [], ◌∷◌, ◌++◌, arith, ◌==◌, ==_iff,
}
use quantix_cnnector_go.Value.{Fields}
use quantix_cnnector_go.EventBus.{
  EventBus, Channel, find_queue, subscribe, unsubscribe, remove_queue, receive, receive_from,
  try_drop_oldest, drop_first,
}
use quantix_cnnector_go.EventBus.Lifecycle.{IsValid, Missing, Missing-above, find-remove}

find-last :
    (i : ℕ) (ch : Channel) (qs : List (ℕ × Channel))
    → Missing i qs
    → find_queue i (qs ++ (i, ch) ∷ []) ≡ some ch
unfolding find_queue
find-last i ch [] h = ground (arith, ==_iff i i)
find-last i ch ((j, d) ∷ qs) h = ground (arith, find-last i ch qs h.1)

pub find-subscribe_new :
    (b : EventBus)
    → IsValid b
    → find_queue (subscribe b).1 (subscribe b).0.queues
      ≡ some (record { capacity = b.max_size; buffer = []; closed = false })
unfolding subscribe
find-subscribe_new b v =
    find-last b.next_id _ b.queues (Missing-above b.max_size b.next_id b.queues v.valid)

module _ (i : ℕ) where
  find-snoc :
      (qs : List (ℕ × Channel)) (q : ℕ × Channel) {ch : Channel}
      → find_queue i qs ≡ some ch
      → find_queue i (qs ++ q ∷ []) ≡ some ch
  unfolding find_queue
  find-snoc [] q h = cc
  find-snoc ((j, d) ∷ qs) q {ch} h = ground (arith, find-snoc qs q {ch = ch})

  pub find-subscribe :
      (b : EventBus) {ch : Channel}
      → find_queue i b.queues ≡ some ch
      → find_queue i (subscribe b).0.queues ≡ some ch
  unfolding subscribe
  find-subscribe b h = find-snoc b.queues _ h

  find-remove_ne :
      (j : ℕ) (qs : List (ℕ × Channel))
      → (j == i) ≡ false
      → find_queue i (remove_queue j qs) ≡ find_queue i qs
  unfolding find_queue remove_queue
  find-remove_ne j [] h = refl
  find-remove_ne j ((k, d) ∷ qs) h =
      ground (arith, ==_iff k j, ==_iff k i, ==_iff j i, find-remove_ne j qs)

  pub find-unsubscribe_ne :
      (b : EventBus) (j : ℕ)
      → (j == i) ≡ false
      → find_queue i (unsubscribe b j).queues ≡ find_queue i b.queues
  unfolding unsubscribe
  find-unsubscribe_ne b j h = find-remove_ne j b.queues h

  find-receive_from_ne :
      (j : ℕ) (qs : List (ℕ × Channel))
      → (j == i) ≡ false
      → find_queue i (receive_from j qs) ≡ find_queue i qs
  unfolding find_queue receive_from
  find-receive_from_ne j [] h = refl
  find-receive_from_ne j ((k, d) ∷ qs) h =
      ground (arith, ==_iff k j, ==_iff k i, ==_iff j i, find-receive_from_ne j qs)

  pub find-receive_ne :
      (b : EventBus) (j : ℕ)
      → (j == i) ≡ false
      → find_queue i (receive b j).queues ≡ find_queue i b.queues
  unfolding receive
  find-receive_ne b j h = find-receive_from_ne j b.queues h

  find-receive_from :
      (qs : List (ℕ × Channel)) (ch : Channel)
      → find_queue i qs ≡ some ch
      → find_queue i (receive_from i qs) ≡ some (try_drop_oldest ch).0
  unfolding find_queue receive_from
  find-receive_from [] ch h = cc
  find-receive_from ((k, d) ∷ qs) ch h = ground (arith, find-receive_from qs ch)

  pub find-receive :
      (b : EventBus) (ch : Channel) (m : Fields) (rest : List Fields)
      → find_queue i b.queues ≡ some ch
      → ch.buffer ≡ m ∷ rest
      → find_queue i (receive b i).queues ≡ some (record ch { buffer = rest })
  unfolding receive try_drop_oldest drop_first
  find-receive b ch m rest h e = find-receive_from b.queues ch h ∙ rw e refl

  pub find-unsubscribe : (b : EventBus) → IsValid b → find_queue i (unsubscribe b i).queues ≡ none
  unfolding unsubscribe
  find-unsubscribe b v = find-remove b.max_size b.next_id i b.queues v.valid
