-- ===== src/Api/Stream/Tests.antt =====
-- A client of the websocket (internal/api/websocket.go) that gets two of three messages.
use quantix_cnnector_go.Prelude.{ℕ, ◌≡◌, refl, true, false, [], ◌∷◌}
use quantix_cnnector_go.Prelude.Int.{pos}
use quantix_cnnector_go.Prelude.Text.{codes, eq_bytes, trim_space}
use quantix_cnnector_go.Value.{Fields, end, field, int}
use quantix_cnnector_go.EventBus.{EventBus, new_event_bus, subscribe, publish}
use quantix_cnnector_go.EventBus.Order.{undisturbed}
use quantix_cnnector_go.EventBus.Lifecycle.{new_event_bus-IsValid}
use quantix_cnnector_go.Api.Access.{Access, verify_api_key}
use quantix_cnnector_go.Api.Stream.{subscribed, closes, open_stream, on_ping}
use quantix_cnnector_go.Api.Stream.World.{World, IsServed, opens, goes_on, published, pings}
use quantix_cnnector_go.Api.Stream.Delivered.{Reach-IsServed}

abbrev bus : EventBus
bus = new_event_bus (pos 2)

abbrev server : Access
server = record { api_key = codes "secret" }

turned_away : open_stream server (codes "guess") true bus ≡ closes 4401 bus
unfolding open_stream verify_api_key trim_space eq_bytes
turned_away = refl

abbrev weighing : ℕ → Fields
weighing n = field (codes "weight") (int (pos n)) end

abbrev fed : World
fed = record {
  stream = record (subscribed (subscribe bus)) {
    bus = publish undisturbed (subscribe bus).0 (weighing 1);
  };
  published = weighing 1 ∷ [];
}

abbrev hung_up : World
hung_up = record fed { stream = on_ping fed.stream false }

Reach-IsServed_example : IsServed bus.max_size hung_up
Reach-IsServed_example =
    Reach-IsServed (new_event_bus-IsValid (pos 2))
      (goes_on (goes_on opens refl (published (weighing 1))) refl (pings false))
