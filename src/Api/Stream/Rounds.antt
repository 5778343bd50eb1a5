-- ===== src/Api/Stream/Rounds.antt =====
-- What one round of a websocket, or one move of others on the bus, leaves served (internal/api/websocket.go).
use mathlib.Core.List.Sublist
use mathlib.Core.List.{Sublist, sublist-append_left, map-append}
use quantix_cnnector_go.Prelude.{
  ℕ, zero, suc, ◌-◌, ◌≤◌, ◌<◌, ◌≡◌, refl, sym, ap, subst, ◌∙◌, Bool, true, false, some, List, [],
  ◌∷◌, ◌++◌, map, append_assoc, arith, length, length-append, length-map, drop, keep_last,
  keep_last_all, length-keep_last,
}
use quantix_cnnector_go.Value.{Fields}
use quantix_cnnector_go.Value.Maps.{clone}
use quantix_cnnector_go.EventBus.{EventBus, Channel, find_queue, receive, publish}
use quantix_cnnector_go.EventBus.Delivery.{IsBounded}
use quantix_cnnector_go.EventBus.Order.{undisturbed, publish_all-keep_last}
use quantix_cnnector_go.EventBus.Lifecycle.{IsValid, receives, Step-IsValid}
use quantix_cnnector_go.EventBus.Channels.{find-unsubscribe, find-receive}
use quantix_cnnector_go.Api.Stream.{Stream, ended, written, taken, on_message, on_ping}
use quantix_cnnector_go.Api.Stream.World.{World, with_bus, IsServed, live, over}

drop-sublist {ℓ} : {A : Type ℓ} (k : ℕ) (xs : List A) → Sublist (drop k xs) xs
drop-sublist zero xs = Sublist.refl xs
drop-sublist (suc k) [] = Sublist.refl []
drop-sublist (suc k) (x ∷ xs) = Sublist.cons x (drop-sublist k xs)

ended-IsServed :
    (size : ℕ) (w : World)
    → IsValid w.stream.bus
    → Sublist w.stream.sent (map clone w.published)
    → IsServed size (record w { stream = ended w.stream })
unfolding ended
ended-IsServed size w v o = over refl (find-unsubscribe w.stream.queue w.stream.bus v) o

module _ (size : ℕ) (w : World) (v : IsValid w.stream.bus) where
  taken-IsServed :
      (writes : Bool) (s : Stream) (ch : Channel) (buf : List Fields)
      → w.stream.running ≡ true
      → find_queue w.stream.queue w.stream.bus.queues ≡ some ch
      → ch.closed ≡ false
      → ch.capacity ≡ size
      → IsBounded ch
      → Sublist (w.stream.sent ++ buf) (map clone w.published)
      → (length w.published ≤ size → w.stream.sent ++ buf ≡ map clone w.published)
      → ch.buffer ≡ buf
      → taken w.stream buf false writes ≡ some s
      → IsServed size (record w { stream = s })
  taken-IsServed writes s ch [] r f o c b sub all e k = cc
  taken-IsServed true s ch (m ∷ rest) r f o c b sub all e k =
      let same : written w.stream m true ≡ s = cc in
      let joined = append_assoc w.stream.sent (m ∷ []) rest in
      subst (λ t. IsServed size (record w { stream = t })) same
        (live (record ch { buffer = rest }) r
          (find-receive w.stream.queue w.stream.bus ch m rest f e) o c (omega (arith, ap length e))
          (rw joined sub) (λ n. joined ∙ all n))
  taken-IsServed false s ch (m ∷ rest) r f o c b sub all e k =
      let same : written w.stream m false ≡ s = cc in
      subst (λ t. IsServed size (record w { stream = t })) same
        (ended-IsServed size (with_bus w (receive w.stream.bus w.stream.queue))
          (Step-IsValid (receives w.stream.bus w.stream.queue) v)
          (Sublist.trans (sublist-append_left w.stream.sent (m ∷ rest)) sub))

  pub on_message-IsServed :
      (writes : Bool) (s : Stream) (ch : Channel)
      → w.stream.running ≡ true
      → find_queue w.stream.queue w.stream.bus.queues ≡ some ch
      → ch.closed ≡ false
      → ch.capacity ≡ size
      → IsBounded ch
      → Sublist (w.stream.sent ++ ch.buffer) (map clone w.published)
      → (length w.published ≤ size → w.stream.sent ++ ch.buffer ≡ map clone w.published)
      → on_message w.stream writes ≡ some s
      → IsServed size (record w { stream = s })
  unfolding on_message
  on_message-IsServed writes s ch r f o c b sub all k =
      taken-IsServed writes s ch ch.buffer r f o c b sub all refl (sym (rw (f, o) refl) ∙ k)

  pub on_ping-IsServed :
      (writes : Bool)
      → IsServed size w
      → Sublist w.stream.sent (map clone w.published)
      → IsServed size (record w { stream = on_ping w.stream writes })
  unfolding on_ping
  on_ping-IsServed true (live ch r f o c b sub all) k = live ch r f o c b sub all
  on_ping-IsServed true (over r f o) k = over r f o
  on_ping-IsServed false h k = ended-IsServed size w v k

  -- One more message, of which the channel keeps the last that it has room for.
  pub publish-IsServed :
      (m : Fields) (ch : Channel)
      → 0 < size
      → w.stream.running ≡ true
      → find_queue w.stream.queue w.stream.bus.queues ≡ some ch
      → ch.closed ≡ false
      → ch.capacity ≡ size
      → IsBounded ch
      → Sublist (w.stream.sent ++ ch.buffer) (map clone w.published)
      → (length w.published ≤ size → w.stream.sent ++ ch.buffer ≡ map clone w.published)
      → IsServed size (record {
        stream = record w.stream { bus = publish undisturbed w.stream.bus m };
        published = w.published ++ m ∷ [];
      })
  publish-IsServed m ch p r f o c b sub all =
      let kept = ch.buffer ++ clone m ∷ [] in
      live (record ch { buffer = keep_last ch.capacity kept }) r
        (publish_all-keep_last (m ∷ []) w.stream.bus w.stream.queue ch f o (omega arith) b) o c
        (omega (arith, length-keep_last ch.capacity kept))
        (Sublist.trans
          (Sublist.append (Sublist.refl w.stream.sent)
            (drop-sublist (length kept - ch.capacity) kept))
          (rw
            (
              map-append clone w.published (m ∷ []),
              ← append_assoc w.stream.sent ch.buffer (clone m ∷ []),
            )
            (Sublist.append sub (Sublist.refl (clone m ∷ [])))))
        (λ n.
          let same = all (omega (arith, length-append w.published (m ∷ []))) in
          let fits : length kept ≤ ch.capacity = omega (
            arith,
            ap length same,
            length-append w.stream.sent ch.buffer,
            length-map w.published clone,
            length-append w.published (m ∷ []),
            length-append ch.buffer (clone m ∷ []),
          ) in
          rw
            (
              keep_last_all ch.capacity kept fits,
              map-append clone w.published (m ∷ []),
              ← append_assoc w.stream.sent ch.buffer (clone m ∷ []),
            )
            (ap (λ xs. xs ++ clone m ∷ []) same))

  pub bus-IsServed :
      (b' : EventBus)
      → ((ch : Channel)
          → find_queue w.stream.queue w.stream.bus.queues ≡ some ch
          → find_queue w.stream.queue b'.queues ≡ some ch)
      → w.stream.running ≡ true
      → IsServed size w
      → IsServed size (with_bus w b')
  bus-IsServed b' keeps r (live ch _ f o c b sub all) = live ch r (keeps ch f) o c b sub all
  bus-IsServed b' keeps r (over r' f o) = cc

pub sent-Sublist :
    {size : ℕ} {w : World} → IsServed size w → Sublist w.stream.sent (map clone w.published)
sent-Sublist {w = w} (live ch r f o c b sub all) =
    Sublist.trans (sublist-append_left w.stream.sent ch.buffer) sub
sent-Sublist (over r f o) = o
