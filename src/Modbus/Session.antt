-- ===== src/Modbus/Session.antt =====
-- The connection of the Modbus driver (internal/driver/modbus.go: Connect, Disconnect, ExecuteAction).
use quantix_cnnector_go.Prelude.{
  ℕ, ◌%◌, ◌^◌, ◌≡◌, refl, sym, subst, Bool, true, false, ◌&&◌, ◌||◌, not, Option, none, some,
  Option-cases, [], ◌++◌, ◌⊎◌, inl, inr, Bool-cases, arith,
}
use quantix_cnnector_go.Prelude.Int.{pos, bits_of_int}
use quantix_cnnector_go.Prelude.Text.{Bytes, codes, eq_bytes, show_int}
use quantix_cnnector_go.Value.{Value, Fields, Libs, Result, Error}
use quantix_cnnector_go.Modbus.{
  request_of, Modbus, Line, new_modbus_driver, close_unlocked, mark_disconnected, disconnect,
  connect, answered, slave, perform, execute_action, attempt, cleared, with_tcp, with_rtu,
}
use quantix_cnnector_go.Modbus.Params.{as_string, as_int}

abbrev pub is_open : Option ℕ → Bool
is_open none = false
is_open (some id) = true

module _ (lib : Libs) (params : Fields) (simulates : Bool) (line : Line) where
  abbrev pub nowhere : Bool
  nowhere =
      eq_bytes (as_string lib params (codes "host") []) []
      && eq_bytes (as_string lib params (codes "port") []) []

  -- There is a client exactly with one open line, only while the driver counts as connected, and only with a
  -- host or a port in the parameters; without a client it counts as connected only to simulate.
  abbrev pub IsValid : Modbus → Type 0
  IsValid d =
      (d.client ≡ (is_open d.handler || is_open d.rtu))
      × ((is_open d.handler && is_open d.rtu) ≡ false)
      × ((d.client && not d.connected) ≡ false)
      × ((d.connected && not d.client && not simulates) ≡ false)
      × ((d.client && nowhere) ≡ false)

  set_slave-IsValid :
      (d : Modbus) (id : ℕ)
      → IsValid d
      → IsValid (record d {
        handler = slave lib params simulates line id d.handler;
        rtu = slave lib params simulates line id d.rtu;
      })
  set_slave-IsValid d id v = elim (Option-cases d.handler) [
    | inl a ↦ elim (Option-cases d.rtu) [
      | inl b ↦ ground (arith, v, a, b)
      | inr (y, b) ↦ ground (arith, v, a, b)
    ]
    | inr (x, a) ↦ elim (Option-cases d.rtu) [
      | inl b ↦ ground (arith, v, a, b)
      | inr (y, b) ↦ ground (arith, v, a, b)
    ]
  ]

  answered-IsValid :
      (d : Modbus) (reply : Bytes → Value) (r : Error ⊎ Bytes)
      → IsValid d
      → IsValid (answered lib params simulates line d reply r).1
  unfolding mark_disconnected close_unlocked
  answered-IsValid d reply (inl e) v = (refl, refl, refl, refl, refl)
  answered-IsValid d reply (inr bs) v = v

  attempt-IsValid :
      (d opened : Modbus) (what : Bytes) (r : Option Bytes)
      → is_open d.handler ≡ false
      → is_open d.rtu ≡ false
      → IsValid opened
      → IsValid (attempt lib params simulates line d opened what r).1
  attempt-IsValid d opened what none a b v = v
  attempt-IsValid d opened what (some e) a b v =
      (ground (arith, a, b), ground (arith, a), refl, ground arith, refl)

  connect-IsValid : (d : Modbus) → IsValid d → IsValid (connect lib params simulates line d).1
  unfolding connect cleared
  connect-IsValid d v = elim (Bool-cases (eq_bytes (as_string lib params (codes "host") []) [])) [
    | inr host ↦
        let tcp =
          attempt lib params simulates line (cleared d) (with_tcp (cleared d))
            (codes "modbus tcp connect failed: ")
            (line.open_tcp (
              as_string lib params (codes "host") []
              ++ codes ":"
              ++ show_int (as_int lib params (codes "port") (pos 502)))) in
        let same : connect lib params simulates line d ≡ tcp = rw (host, connect) refl in
        subst (λ (p : Bool × Modbus). IsValid p.1) (sym same)
          (attempt-IsValid (cleared d) (with_tcp (cleared d)) (codes "modbus tcp connect failed: ")
            _ refl refl (refl, refl, refl, refl, ground (arith, host)))
    | inl no_host ↦ elim (Bool-cases (eq_bytes (as_string lib params (codes "port") []) [])) [
      | inr port ↦
          let serial =
            attempt lib params simulates line (cleared d) (with_rtu (cleared d))
              (codes "modbus rtu connect failed: ")
              (line.open_rtu (as_string lib params (codes "port") [])) in
          let same : connect lib params simulates line d ≡ serial =
            rw (no_host, port, connect) refl in
          subst (λ (p : Bool × Modbus). IsValid p.1) (sym same)
            (attempt-IsValid (cleared d) (with_rtu (cleared d))
              (codes "modbus rtu connect failed: ") _ refl refl
              (refl, refl, refl, refl, ground (arith, port)))
      | inl no_port ↦
          rw (no_host, no_port, connect)
            (refl, refl, refl, ground (arith, v, no_host, no_port), refl)
    ]
  ]

  perform-IsValid :
      (d : Modbus) (action : Bytes) (ps : Fields)
      → IsValid d
      → IsValid (perform lib params simulates line d action ps).1
  unfolding perform
  perform-IsValid d action ps v =
      let id = bits_of_int (as_int lib ps (codes "slave_id") (pos 1)) % 2 ^ 8 in
      let d' = record d {
        handler = slave lib params simulates line id d.handler;
        rtu = slave lib params simulates line id d.rtu;
      } in
      let v' = set_slave-IsValid d id v in
      elim (Option-cases (request_of lib params simulates line action ps)) [
        | inl e ↦ rw (e, perform) v'
        | inr ((reply, n), e) ↦ rw (e, perform) (answered-IsValid d' reply _ v')
      ]

  simulated-kept :
      (d : Modbus) (action : Bytes) (ps : Fields)
      → d.client ≡ false
      → (execute_action lib params simulates line d action ps).1 ≡ d
  unfolding execute_action
  simulated-kept d action ps none' = elim (Bool-cases d.connected) [
    | inl connected ↦ rw (none', connected, execute_action) refl
    | inr off ↦ rw (none', off, execute_action) refl
  ]

  pub data Step : Modbus → Modbus → Type 0 where
    connects : (d : Modbus) → Step d (connect lib params simulates line d).1
    disconnects : (d : Modbus) → Step d (disconnect d)
    acts :
        (d : Modbus) (action : Bytes) (ps : Fields)
        → Step d (execute_action lib params simulates line d action ps).1

  pub data Reach : Modbus → Type 0 where
    fresh : Reach new_modbus_driver
    after : {d d' : Modbus} → Reach d → Step d d' → Reach d'

  Step-IsValid : {d d' : Modbus} → Step d d' → IsValid d → IsValid d'
  unfolding disconnect close_unlocked execute_action
  Step-IsValid (connects d) v = connect-IsValid d v
  Step-IsValid (disconnects d) v = (refl, refl, refl, refl, refl)
  Step-IsValid (acts d action ps) v = elim (Bool-cases d.client) [
    | inl client ↦
        let same : execute_action lib params simulates line d action ps
            ≡ perform lib params simulates line d action ps =
          rw (client, execute_action) refl in
        subst (λ (p : Result Value × Modbus). IsValid p.1) (sym same)
          (perform-IsValid d action ps v)
    | inr none' ↦ subst IsValid (sym (simulated-kept d action ps none')) v
  ]

  -- After any history of connects, disconnects and actions on a new driver, whatever the lines and the device
  -- do, there is a client exactly with one open line, only while the driver counts as connected, and only with
  -- a host or a port in the parameters; without a client it counts as connected only if it is to simulate.
  pub Reach-IsValid : {d : Modbus} → Reach d → IsValid d
  unfolding new_modbus_driver
  Reach-IsValid fresh = (refl, refl, refl, refl, refl)
  Reach-IsValid (after r step) = Step-IsValid step (Reach-IsValid r)
