-- ===== src/EventBus.antt =====
-- internal/service/event_bus.go: the bus, its bounded subscriber channels and the drop-oldest policy.
-- A channel is named by its place in the order of subscription. What other goroutines do to a channel
-- between two selects of Publish (receive, send, close) is a parameter of the delivery, `Rival`.
pub mod Delivery
pub mod Order
pub mod Lifecycle
pub mod Channels
mod Tests
use quantix_cnnector_go.Prelude.{
  ℕ, zero, suc, ◌+◌, ◌%◌, ◌^◌, Bool, true, false, Option, none, some, List, [], ◌∷◌, ◌++◌, ltb,
  ◌==◌, if◌then◌else◌, length,
}
use quantix_cnnector_go.Prelude.Int.{ℤ, pos, leb_ℤ, pos_part}
use quantix_cnnector_go.Value.{Fields}
use quantix_cnnector_go.Value.Maps.{clone}

-- `chan map[string]any`, with what it holds, oldest first.
pub record Channel : Type 0 where
  pub capacity : ℕ
  pub buffer : List Fields
  pub closed : Bool

-- What other goroutines do before the receive and before the second send.
pub record Rival : Type 0 where
  pub before_drop : Channel → Channel
  pub before_resend : Channel → Channel

pub record EventBus : Type 0 where
  pub queues : List (ℕ × Channel)
  pub max_size : ℕ
  pub dropped : ℕ
  pub sent : ℕ
  pub next_id : ℕ

abbrev pub default_size : ℕ
default_size = 200

pub new_event_bus : ℤ → EventBus
new_event_bus size = record {
  queues = [];
  max_size = if leb_ℤ size (pos 0) then default_size else pos_part size;
  dropped = 0;
  sent = 0;
  next_id = 0;
}

-- atomic.Uint64.Add
abbrev pub add_u64 : ℕ → ℕ → ℕ
add_u64 n k = (n + k) % 2 ^ 64

pub subscribe : EventBus → EventBus × ℕ
subscribe b =
    let ch : Channel = record { capacity = b.max_size; buffer = []; closed = false } in
    (record b { queues = b.queues ++ (b.next_id, ch) ∷ []; next_id = suc b.next_id }, b.next_id)

-- delete(b.queues, ch)
pub remove_queue : ℕ → List (ℕ × Channel) → List (ℕ × Channel)
remove_queue i [] = []
remove_queue i ((j, ch) ∷ qs) = if j == i then qs else (j, ch) ∷ remove_queue i qs

pub find_queue : ℕ → List (ℕ × Channel) → Option Channel
find_queue i [] = none
find_queue i ((j, ch) ∷ qs) = if j == i then some ch else find_queue i qs

pub unsubscribe : EventBus → ℕ → EventBus
unfolding remove_queue
unsubscribe b i = record b { queues = remove_queue i b.queues }

-- The results of trySend and tryDropOldest: done, not done, or a recovered panic.
pub data Attempt : Type 0 where
  done refused panicked : Attempt

pub try_send : Channel → Fields → Channel × Attempt
try_send ch msg =
    if ch.closed
    then (ch, panicked)
    else if ltb (length ch.buffer) ch.capacity
    then (record ch { buffer = ch.buffer ++ msg ∷ [] }, done)
    else (ch, refused)

-- A receive from a closed channel yields what is buffered, and then the zero value.
pub drop_first : Channel → List Fields → Channel × Attempt
drop_first ch [] = (ch, if ch.closed then done else refused)
drop_first ch (old ∷ rest) = (record ch { buffer = rest }, done)

pub try_drop_oldest : Channel → Channel × Attempt
unfolding drop_first
try_drop_oldest ch = drop_first ch ch.buffer

-- The part of the loop of Publish after a refused send: `n` messages have been counted as dropped.
pub resend : Rival → Fields → ℕ → Channel → Channel × ℕ
resend r msg n ch =
    let (ch', attempt) = try_send (r.before_resend ch) msg in
    elim attempt [ done ↦ (ch', n) | _ ↦ (ch', suc n) ]

pub make_room : Rival → Fields → Channel → Channel × ℕ
make_room r msg ch =
    let (ch', attempt) = try_drop_oldest (r.before_drop ch) in
    elim attempt [ done ↦ resend r msg 1 ch' | refused ↦ resend r msg 0 ch' | panicked ↦ (ch', 1) ]

-- One round of the loop of Publish: the channel after it, and what is added to `dropped`.
pub deliver : Rival → Fields → Channel → Channel × ℕ
deliver r msg ch =
    let (ch', attempt) = try_send ch msg in
    elim attempt [ done ↦ (ch', 0) | refused ↦ make_room r msg ch' | panicked ↦ (ch', 1) ]

-- The loop over the targets.
pub deliver_all : (ℕ → Rival) → Fields → List (ℕ × Channel) → List (ℕ × Channel) × ℕ
unfolding deliver
deliver_all rivals message [] = ([], 0)
deliver_all rivals message ((i, ch) ∷ qs) =
    let (ch', n) = deliver (rivals i) (clone message) ch in
    let (qs', k) = deliver_all rivals message qs in ((i, ch') ∷ qs', n + k)

pub publish : (ℕ → Rival) → EventBus → Fields → EventBus
unfolding deliver_all
publish rivals b message =
    let (qs, n) = deliver_all rivals message b.queues in
    record b { queues = qs; sent = add_u64 b.sent 1; dropped = add_u64 b.dropped n }

-- Nobody interferes.
abbrev pub quiet : Rival
quiet = record { before_drop = λ ch. ch; before_resend = λ ch. ch }

-- A subscriber receives its oldest message (`<-ch` of internal/api/websocket.go).
pub receive_from : ℕ → List (ℕ × Channel) → List (ℕ × Channel)
unfolding try_drop_oldest
receive_from i [] = []
receive_from i ((j, ch) ∷ qs) =
    if j == i then (j, (try_drop_oldest ch).0) ∷ qs else (j, ch) ∷ receive_from i qs

pub receive : EventBus → ℕ → EventBus
unfolding receive_from
receive b i = record b { queues = receive_from i b.queues }
