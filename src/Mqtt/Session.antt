-- ===== src/Mqtt/Session.antt =====
-- The clients that the MQTT driver makes (internal/driver/mqtt.go: Connect, Disconnect, the callbacks).
use quantix_cnnector_go.Prelude.{
  ℕ, suc, ◌≡◌, refl, sym, subst, ◌∙◌, Bool, true, false, Bool-cases, ◌&&◌, ◌||◌, not, Option, none,
  some, ◌==◌, ==_iff, ◌⊎◌, inl, inr,
}
use quantix_cnnector_go.Prelude.Text.{Bytes, codes, eq_bytes}
use quantix_cnnector_go.Value.{Fields, Libs, err, Error, errorf}
use quantix_cnnector_go.Mqtt.{
  Mqtt, Attempt, accepted, refused, timed_out, Client, new_mqtt_driver, register_message_handler,
  on_connect, connection_lost, disconnect, last_err_or, connected_as, execute_action,
}

-- The driver and its clients: how many were made, which have an open connection, and for which the
-- wait for the connection timed out.
pub record World (H : Type 0) : Type 0 where
  pub driver : Mqtt H
  pub made : ℕ
  pub is_open : ℕ → Bool
  pub abandoned : ℕ → Bool

abbrev is_client : Option ℕ → ℕ → Bool
is_client none j = false
is_client (some i) j = i == j

-- Disconnecting the client that is held, if it is open.
abbrev pub close_held : Option ℕ → (ℕ → Bool) → ℕ → Bool
close_held held is_open j = not (is_client held j) && is_open j

abbrev is_accepted : Attempt → Bool
is_accepted accepted = true
is_accepted a = false

abbrev is_timed_out : Attempt → Bool
is_timed_out timed_out = true
is_timed_out a = false

-- What a closed client leaves open.
left_open : (c o a : Bool) → (o ≡ true → (c ≡ true) ⊎ (a ≡ true)) → not c && o ≡ true → a ≡ true
left_open true o a h k = cc
left_open false false a h k = cc
left_open false true a h k = elim (h refl) [ inl e ↦ cc | inr e ↦ e ]

later : (b a c : Bool) → a ≡ true → (c ≡ true) ⊎ (b || a ≡ true)
later true a c h = inr refl
later false a c h = inr h

still : (c o : Bool) → not c && o ≡ true → o ≡ true
still true o h = cc
still false o h = h

abbrev pub no_client : Client → Error
no_client io = errorf (io.format (codes "mqtt client is not connected"))

module _ {H : Type 0} where
  pub fresh_world : World H
  fresh_world = record {
    driver = new_mqtt_driver;
    made = 0;
    is_open = λ j. false;
    abandoned = λ j. false;
  }

  module _ (lib : Libs) (params : Fields) (simulates : Bool) where
    pub connect_world : World H → Attempt → World H
    connect_world w a = record {
      driver = (connected_as lib params simulates w.made a w.driver).1;
      made = suc w.made;
      is_open = λ j. (is_accepted a && w.made == j) || close_held w.driver.client w.is_open j;
      abandoned = λ j. (is_timed_out a && w.made == j) || w.abandoned j;
    }

    pub data Step (w : World H) : World H → Type 0 where
      connects : (a : Attempt) → Step w (connect_world w a)
      disconnects : Step w (record w {
        driver = disconnect w.driver;
        is_open = close_held w.driver.client w.is_open;
      })
      registers : (h : H) → Step w (record w { driver = register_message_handler w.driver h })
      -- The callback of a client that is open.
      reports : (i : ℕ) → w.is_open i ≡ true → Step w (record w { driver = on_connect w.driver })
      -- A client whose connect timed out goes on, and connects.
      arrives :
          (i : ℕ)
          → w.abandoned i ≡ true
          → Step w (record w { driver = on_connect w.driver; is_open = λ j. i == j || w.is_open j })
      loses :
          (i : ℕ) (e : Option Bytes)
          → Step w (record w {
            driver = connection_lost w.driver e;
            is_open = λ j. not (i == j) && w.is_open j;
          })

    pub data Reach : World H → Type 0 where
      fresh : Reach fresh_world
      after : {w w' : World H} → Reach w → Step w w' → Reach w'

    -- An open connection is that of the client that the driver holds, or of one that it gave up waiting
    -- for.
    pub IsHeld : World H → Type 0
    IsHeld w =
        (j : ℕ) → w.is_open j ≡ true → (is_client w.driver.client j ≡ true) ⊎ (w.abandoned j ≡ true)

    connect-IsHeld : (w : World H) (a : Attempt) → IsHeld w → IsHeld (connect_world w a)
    unfolding connected_as connect_world IsHeld
    connect-IsHeld w accepted held j h = elim (Bool-cases (w.made == j)) [
      | inl e ↦ inl e
      | inr e ↦ inr (left_open _ _ _ (held j) (sym (rw e refl) ∙ h))
    ]
    connect-IsHeld w (refused e) held j h = inr (left_open _ _ _ (held j) h)
    connect-IsHeld w timed_out held j h = later (w.made == j) _ _ (left_open _ _ _ (held j) h)

    Step-IsHeld : {w w' : World H} → Step w w' → IsHeld w → IsHeld w'
    unfolding IsHeld disconnect register_message_handler on_connect connection_lost
    Step-IsHeld {w = w} (connects a) held = connect-IsHeld w a held
    Step-IsHeld disconnects held = λ j h. inr (left_open _ _ _ (held j) h)
    Step-IsHeld (registers k) held = held
    Step-IsHeld (reports i k) held = held
    Step-IsHeld {w = w} (arrives i k) held = λ j h. elim (Bool-cases (i == j)) [
      | inl e ↦ inr (subst (λ j. w.abandoned j ≡ true) ((==_iff i j).0 e) k)
      | inr e ↦ held j (sym (rw e refl) ∙ h)
    ]
    Step-IsHeld {w = w} (loses i none) held = λ j h. held j (still (i == j) (w.is_open j) h)
    Step-IsHeld {w = w} (loses i (some e)) held = λ j h. held j (still (i == j) (w.is_open j) h)

    -- After any history of calls and callbacks every open connection is that of the client that the
    -- driver holds, or of a client for whose connection it gave up waiting: the clients that it
    -- replaced or let go are closed.
    pub Reach-IsHeld : {w : World H} → Reach w → IsHeld w
    unfolding fresh_world IsHeld
    Reach-IsHeld fresh = λ j h. cc
    Reach-IsHeld (after r step) = Step-IsHeld step (Reach-IsHeld r)

    -- The driver when a client connects after all.
    abbrev pub arrived : ℕ → Attempt → Mqtt H → Mqtt H
    arrived next e d = on_connect (connected_as lib params simulates next e d).1

    -- A client that connects after the driver gave up waiting for it makes the driver count as
    -- connected, but the driver has no client: unless it is to simulate, each publish and each
    -- subscribe fails.
    pub arrived-Fails :
        (io : Client) (d : Mqtt H) (e : Attempt) (next : ℕ) (ps : Fields)
        → simulates ≡ false
        → is_accepted e ≡ false
        → ((arrived next e d).connected ≡ true)
          × (execute_action lib params simulates io (arrived next e d) (codes "mqtt.publish") ps
              ≡ err (no_client io))
          × (execute_action lib params simulates io (arrived next e d) (codes "mqtt.subscribe") ps
              ≡ err (no_client io))
    unfolding on_connect connected_as execute_action last_err_or eq_bytes
    arrived-Fails io d accepted next ps s a = cc
    arrived-Fails io d (refused e) next ps s a = (refl, rw s refl, rw s refl)
    arrived-Fails io d timed_out next ps s a = (refl, rw s refl, rw s refl)
