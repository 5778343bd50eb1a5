-- ===== src/Mqtt.antt =====
-- internal/driver/mqtt.go: the MQTT driver. A client of paho is a number; what it answers is an argument.
-- Calls of the driver come one at a time, as the manager makes them; what a callback changes while a
-- connect waits is overwritten when it is over.
pub mod Session
mod Tests
use quantix_cnnector_go.Prelude.{
  ℕ, ◌%◌, Bool, true, false, Option, none, some, [], ◌++◌, if◌then◌else◌,
}
use quantix_cnnector_go.Prelude.Int.{ℤ, pos, bits_of_int}
use quantix_cnnector_go.Prelude.Text.{Bytes, codes, eq_bytes, show_int}
use quantix_cnnector_go.Value.{
  Value, bool, int, string, object, Fields, end, field, Libs, Result, ok, err, Error, errorf,
}
use quantix_cnnector_go.Config.Mappings.{is_empty}
use quantix_cnnector_go.Modbus.Params.{as_string, as_int}

-- H is the type of the message handlers.
pub record Mqtt (H : Type 0) : Type 0 where
  pub client : Option ℕ
  pub connected : Bool
  pub last_err : Bytes
  pub handler : Option H

pub record Options : Type 0 where
  pub broker : Bytes
  pub username : Option Bytes
  pub password : Option Bytes

-- How waiting for a connect ends.
pub data Attempt : Type 0 where
  accepted : Attempt
  refused : Bytes → Attempt
  timed_out : Attempt

-- Subscribe and Publish: the error that their token has after the wait; `format` is fmt.Errorf without
-- arguments.
pub record Client : Type 0 where
  pub subscribe : Bytes → ℕ → Option Error
  pub publish : Bytes → ℕ → Bytes → Option Error
  pub format : Bytes → Bytes

abbrev byte : ℤ → ℕ
byte n = bits_of_int n % 256

module _ {H : Type 0} where
  unfoldable pub new_mqtt_driver : Mqtt H
  new_mqtt_driver = record { client = none; connected = false; last_err = []; handler = none }

  unfoldable pub register_message_handler : Mqtt H → H → Mqtt H
  register_message_handler d h = record d { handler = some h }

  -- The callbacks of the options.
  unfoldable pub on_connect : Mqtt H → Mqtt H
  on_connect d = record d { connected = true; last_err = [] }

  unfoldable pub connection_lost : Mqtt H → Option Bytes → Mqtt H
  connection_lost d none = record d { connected = false }
  connection_lost d (some e) = record d { connected = false; last_err = e }

  unfoldable pub disconnect : Mqtt H → Mqtt H
  disconnect d = record d { client = none; connected = false }

  unfoldable pub last_err_or : Mqtt H → Bytes → Bytes
  last_err_or d fallback = if is_empty d.last_err then fallback else d.last_err

  -- A message for a subscription: the call of the handler, if there is one.
  unfoldable pub on_message : Mqtt H → Bytes → Bytes → Option (H × (Bytes × Bytes))
  on_message d topic payload = elim d.handler [ none ↦ none | some h ↦ some (h, (topic, payload)) ]

module _ (lib : Libs) (params : Fields) (simulates : Bool) where
  unfoldable pub options_of : Options
  options_of =
      let host = as_string lib params (codes "host") (codes "127.0.0.1") in
      let port = as_int lib params (codes "port") (pos 1883) in
      let user = as_string lib params (codes "username") [] in
      let secret = as_string lib params (codes "password") [] in
      record {
        broker = codes "tcp://" ++ host ++ codes ":" ++ show_int port;
        username = if is_empty user then none else some user;
        password = if is_empty user then none else some secret;
      }

  module _ {H : Type 0} where
    abbrev pub not_connected : Mqtt H → Bytes → Bool × Mqtt H
    not_connected d e = (
      simulates,
      record d {
        client = none;
        connected = simulates;
        last_err = codes "mqtt connect failed: " ++ e;
      },
    )

    -- What Connect leaves of the driver; `next` is the client that it makes.
    unfoldable pub connected_as : ℕ → Attempt → Mqtt H → Bool × Mqtt H
    connected_as next accepted d =
        (true, record d { client = some next; connected = true; last_err = [] })
    connected_as next (refused e) d = not_connected d e
    connected_as next timed_out d = not_connected d (codes "mqtt connect timeout")

    -- The token's error goes before the answer; without a client there is an answer only in a simulation.
    abbrev pub asked : Client → Mqtt H → (Client → Option Error) → Value → Result Value
    asked io d ask answer = elim d.client [
      | none ↦
          if simulates
          then ok answer
          else err (errorf (io.format (last_err_or d (codes "mqtt client is not connected"))))
      | some i ↦ elim (ask io) [ none ↦ ok answer | some e ↦ err e ]
    ]

    unfoldable pub execute_action : Client → Mqtt H → Bytes → Fields → Result Value
    unfolding last_err_or
    execute_action io d action ps =
        let topic = as_string lib ps (codes "topic") [] in
        let payload = as_string lib ps (codes "payload") [] in
        let qos = byte (as_int lib ps (codes "qos") (pos 0)) in
        if eq_bytes action (codes "mqtt.subscribe")
        then asked io d (λ (c : Client). c.subscribe topic qos)
            (object
              (field (codes "topic") (string topic) (field (codes "qos") (int (pos qos)) end)))
        else if eq_bytes action (codes "mqtt.publish")
        then asked io d (λ (c : Client). c.publish topic qos payload)
            (object
              (field (codes "topic") (string topic) (field (codes "published") (bool true) end)))
        else if eq_bytes action (codes "mqtt.on_message")
        then ok (object (field (codes "ok") (bool true) end))
        else err (errorf (codes "unsupported action for MqttDriver: " ++ action))
