-- ===== src/EventBus/Delivery.antt =====
-- One message to one channel (the loop of Publish).
use quantix_cnnector_go.Prelude.{
  ℕ, suc, ◌+◌, ◌≤◌, ◌<◌, ◌≡◌, refl, false, List, [], ◌∷◌, ◌++◌, arith, ltb, dec_lt, lt→ltb,
  if◌then◌else◌, length, length-append, keep_last, keep_last_all, keep_last-snoc_full, drop, ◌-◌,
  ap,
}
use quantix_cnnector_go.Value.{Fields}
use quantix_cnnector_go.EventBus.{
  Channel, Rival, deliver, quiet, try_send, try_drop_oldest, drop_first, resend, make_room,
}

abbrev pub IsBounded : Channel → Type 0
IsBounded ch = length ch.buffer ≤ ch.capacity

deliver_room :
    (msg : Fields) (ch : Channel)
    → ch.closed ≡ false
    → length ch.buffer < ch.capacity
    → deliver quiet msg ch ≡ (record ch { buffer = ch.buffer ++ msg ∷ [] }, 0)
unfolding deliver try_send
deliver_room msg ch o h = ground arith

abbrev holding : Channel → List Fields → Channel
holding ch xs = record ch { buffer = xs }

deliver_full :
    (msg : Fields) (ch : Channel) (n : ℕ) (xs : List Fields)
    → ch.closed ≡ false
    → ch.capacity ≡ suc n
    → length xs ≡ suc n
    → deliver quiet msg (holding ch xs) ≡ (holding ch (drop 1 xs ++ msg ∷ []), 1)
unfolding deliver try_send make_room try_drop_oldest resend
deliver_full msg ch n [] o c h = absurd (omega arith)
deliver_full msg ch n (old ∷ rest) o c h = ground (arith)

-- An open channel that holds at most its capacity, which is not 0, holds after an undisturbed
-- delivery the last `capacity` messages of what it held followed by the new one, and one message is
-- counted as dropped exactly if it was full.
pub deliver-keep_last :
    (msg : Fields) (ch : Channel)
    → ch.closed ≡ false
    → 0 < ch.capacity
    → IsBounded ch
    → deliver quiet msg ch ≡ (
      record ch { buffer = keep_last ch.capacity (ch.buffer ++ msg ∷ []) },
      if ltb (length ch.buffer) ch.capacity then 0 else 1,
    )
deliver-keep_last msg ch o p b = elim (dec_lt (length ch.buffer) ch.capacity) [
  | yes h ↦
      rw
        (
          lt→ltb _ _ h,
          keep_last_all ch.capacity (ch.buffer ++ msg ∷ [])
              (omega (arith, length-append ch.buffer (msg ∷ []))),
        )
        (deliver_room msg ch o h)
  | no h ↦
      let n : ℕ = ch.capacity - 1 in
      let c : ch.capacity ≡ suc n = omega arith in
      let f : length ch.buffer ≡ suc n = omega arith in
      ground (
        arith,
        deliver_full msg ch n ch.buffer o c f,
        keep_last-snoc_full n ch.buffer msg f,
        lt→ltb (length ch.buffer) ch.capacity,
      )
]

conserves_from :
    (msg : Fields) (ch : Channel) (xs : List Fields)
    → length xs ≤ ch.capacity
    → (deliver quiet msg (holding ch xs)).1 + length (deliver quiet msg (holding ch xs)).0.buffer
      ≡ length xs + 1
unfolding deliver try_send make_room try_drop_oldest resend
conserves_from msg ch [] b = ground (arith)
conserves_from msg ch (old ∷ rest) b =
    ground (arith, length-append {0} (old ∷ rest) (msg ∷ []), length-append {0} rest (msg ∷ []))

-- An undisturbed delivery loses exactly the messages that it counts: what the channel holds more, and
-- what is counted as dropped, add up to the one new message, on every branch.
pub deliver_conserves :
    (msg : Fields) (ch : Channel)
    → IsBounded ch
    → (deliver quiet msg ch).1 + length (deliver quiet msg ch).0.buffer ≡ length ch.buffer + 1
deliver_conserves msg ch b = conserves_from msg ch ch.buffer b

-- What other goroutines do to a channel keeps its capacity and never overfills it.
pub record Keeps (act : Channel → Channel) : Type 0 where
  pub bounded : (ch : Channel) → IsBounded ch → IsBounded (act ch)
  pub capacity : (ch : Channel) → (act ch).capacity ≡ ch.capacity

pub record IsFair (r : Rival) : Type 0 where
  pub before_drop : Keeps r.before_drop
  pub before_resend : Keeps r.before_resend

pub quiet-IsFair : IsFair quiet
quiet-IsFair = record {
  before_drop = record { bounded = λ ch b. b; capacity = λ ch. refl };
  before_resend = record { bounded = λ ch b. b; capacity = λ ch. refl };
}

-- A channel as it was, but for what it holds within its capacity.
abbrev pub Within : Channel → Channel → Type 0
Within ch ch' = IsBounded ch' × (ch'.capacity ≡ ch.capacity)

try_send-Within : (msg : Fields) (ch : Channel) → IsBounded ch → Within ch (try_send ch msg).0
unfolding try_send
try_send-Within msg ch b = ground (arith, length-append {0} ch.buffer (msg ∷ []))

drop_first-Within :
    (ch : Channel) (xs : List Fields)
    → IsBounded ch
    → ch.buffer ≡ xs
    → Within ch (drop_first ch xs).0
unfolding drop_first
drop_first-Within ch [] b e = ground arith
drop_first-Within ch (old ∷ rest) b e = let l = ap (length {A = Fields}) e in ground (arith, l)

pub drop-Within : (ch : Channel) → IsBounded ch → Within ch (try_drop_oldest ch).0
unfolding try_drop_oldest
drop-Within ch b = drop_first-Within ch ch.buffer b refl

module _ (r : Rival) (msg : Fields) (f : IsFair r) where
  resend-Within :
      (n : ℕ) (ch : Channel)
      → IsBounded ch
      → Within ch (resend r msg n ch).0 × ((resend r msg n ch).1 ≤ suc n)
  unfolding resend
  resend-Within n ch b = ground (
    arith,
    try_send-Within msg (r.before_resend ch),
    f.before_resend.bounded ch,
    f.before_resend.capacity ch,
  )

  make_room-Within :
      (ch : Channel)
      → IsBounded ch
      → Within ch (make_room r msg ch).0 × ((make_room r msg ch).1 ≤ 2)
  unfolding make_room
  make_room-Within ch b =
      let ch' : Channel = (try_drop_oldest (r.before_drop ch)).0 in
      ground (
        arith,
        drop-Within (r.before_drop ch),
        f.before_drop.bounded ch,
        f.before_drop.capacity ch,
        resend-Within 0 ch',
        resend-Within 1 ch',
      )

  -- Whatever receivers, other publishers and closers do in between, as long as they respect the
  -- capacity, a delivery keeps the channel within its capacity, keeps that capacity, and counts at
  -- most two messages as dropped.
  pub deliver-IsBounded :
      (ch : Channel)
      → IsBounded ch
      → IsBounded (deliver r msg ch).0
        × ((deliver r msg ch).0.capacity ≡ ch.capacity)
        × ((deliver r msg ch).1 ≤ 2)
  unfolding deliver
  deliver-IsBounded ch b =
      ground (arith, try_send-Within msg ch, make_room-Within (try_send ch msg).0)
