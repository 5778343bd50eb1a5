-- ===== src/Api/Stream.antt =====
-- internal/api/websocket.go: a subscriber of the event bus over a websocket. Upgrading the connection and
-- writing to it are arguments.
pub mod World
pub mod Rounds
pub mod Delivered
mod Tests
use quantix_cnnector_go.Prelude.{
  ℕ, suc, Bool, true, false, Option, none, some, List, [], ◌∷◌, ◌++◌, if◌then◌else◌,
}
use quantix_cnnector_go.Prelude.Text.{Bytes, codes}
use quantix_cnnector_go.Value.{Value, string, object, Fields, field, end}
use quantix_cnnector_go.EventBus.{EventBus, Channel, subscribe, unsubscribe, find_queue, receive}
use quantix_cnnector_go.Api.{Response}
use quantix_cnnector_go.Api.Access.{Access, verify_api_key, unauthorized}

-- `queue` is the channel that Subscribe returned, `sent` what was written to the connection.
pub record Stream : Type 0 where
  pub bus : EventBus
  pub queue : ℕ
  pub sent : List Fields
  pub pings : ℕ
  pub running : Bool

-- How the handler begins: with an answer, with the close code 4401, without a connection, or with a
-- subscription.
pub data Opened : Type 0 where
  answers : Response → EventBus → Opened
  closes : ℕ → EventBus → Opened
  fails : EventBus → Opened
  streams : Stream → Opened

abbrev pub subscribed : EventBus × ℕ → Stream
subscribed (b, q) = record { bus = b; queue = q; sent = []; pings = 0; running = true }

-- `upgrades` says whether the connection can be upgraded.
unfoldable pub open_stream : Access → Bytes → Bool → EventBus → Opened
open_stream s key upgrades b =
    if verify_api_key s key
    then (if upgrades then streams (subscribed (subscribe b)) else fails b)
    else if upgrades
    then closes 4401 b
    else answers unauthorized b

-- The deferred Unsubscribe.
unfoldable pub ended : Stream → Stream
ended w = record w { bus = unsubscribe w.bus w.queue; running = false }

-- The message that the select receives, where the channel holds one; the write that follows succeeds or
-- ends the handler.
abbrev pub written : Stream → Fields → Bool → Stream
written w msg true = record w { bus = receive w.bus w.queue; sent = w.sent ++ msg ∷ [] }
written w msg false = ended (record w { bus = receive w.bus w.queue })

abbrev pub taken : Stream → List Fields → Bool → Bool → Option Stream
taken w (msg ∷ rest) closed writes = some (written w msg writes)
taken w [] true writes = some (ended w)
taken w [] false writes = none

-- Only this handler takes its channel off the bus, when it ends.
abbrev pub from_queue : Stream → Option Channel → Bool → Option Stream
from_queue w none writes = none
from_queue w (some ch) writes = taken w ch.buffer ch.closed writes

-- A round that takes the queue's case, if it is ready; `writes` says whether the write succeeds.
unfoldable pub on_message : Stream → Bool → Option Stream
unfolding ended
on_message w writes = from_queue w (find_queue w.queue w.bus.queues) writes

-- A round that takes the ticker's case.
unfoldable pub on_ping : Stream → Bool → Stream
unfolding ended
on_ping w writes = if writes then record w { pings = suc w.pings } else ended w
