-- ===== src/Mqtt/Tests.antt =====
-- Runs of the MQTT driver (internal/driver/mqtt.go) with handlers that are numbers.
use quantix_cnnector_go.Prelude.{ℕ, ◌≡◌, refl, true, false, none, some}
use quantix_cnnector_go.Prelude.Text.{codes, eq_bytes, show_int, decimal}
use quantix_cnnector_go.Value.{end, err}
use quantix_cnnector_go.Value.Toy.{toy}
use quantix_cnnector_go.Value.Maps.{get}
use quantix_cnnector_go.Modbus.Params.{as_string, as_int}
use quantix_cnnector_go.Mqtt.{
  Client, accepted, timed_out, new_mqtt_driver, register_message_handler, on_message, options_of,
  execute_action,
}
use quantix_cnnector_go.Mqtt.Session.{
  World, IsHeld, fresh_world, connect_world, fresh, after, connects, Reach-IsHeld, arrived,
  no_client, arrived-Fails,
}

abbrev client : Client
client = record {
  subscribe = λ topic qos. none;
  publish = λ topic qos payload. none;
  format = λ s. s;
}

tells_handler :
    on_message (register_message_handler (new_mqtt_driver {H = ℕ}) 7) (codes "scale/1") (codes "12")
    ≡ some (7, (codes "scale/1", codes "12"))
unfolding on_message register_message_handler
tells_handler = refl

names_broker : (options_of toy end false).broker ≡ codes "tcp://127.0.0.1:1883"
unfolding options_of as_string as_int get eq_bytes show_int decimal
names_broker = refl

-- A second connect closes the first client.
abbrev twice : World ℕ
twice = connect_world toy end false (connect_world toy end false fresh_world accepted) accepted

Reach-IsHeld_example : IsHeld toy end false twice
Reach-IsHeld_example =
    Reach-IsHeld toy end false (after (after fresh (connects accepted)) (connects accepted))

arrived-Fails_example :
    ((arrived toy end false 0 timed_out (new_mqtt_driver {H = ℕ})).connected ≡ true)
    × (execute_action toy end false client
          (arrived toy end false 0 timed_out (new_mqtt_driver {H = ℕ}))
          (codes "mqtt.publish")
          end
        ≡ err (no_client client))
    × (execute_action toy end false client
          (arrived toy end false 0 timed_out (new_mqtt_driver {H = ℕ}))
          (codes "mqtt.subscribe")
          end
        ≡ err (no_client client))
arrived-Fails_example =
    arrived-Fails toy end false client (new_mqtt_driver {H = ℕ}) timed_out 0 end refl refl
