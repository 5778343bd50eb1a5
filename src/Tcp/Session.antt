-- ===== src/Tcp/Session.antt =====
-- The connection of the TCP driver (internal/driver/tcp.go: Connect, Disconnect, ExecuteAction).
use quantix_cnnector_go.Prelude.{
  ◌≡◌, refl, Bool, true, false, ◌&&◌, ◌||◌, not, Option, none, some, [], ◌++◌, ◌⊎◌, inl, inr, arith,
  if◌then◌else◌,
}
use quantix_cnnector_go.Prelude.Int.{pos, leb_ℤ}
use quantix_cnnector_go.Prelude.Text.{Bytes, codes, eq_bytes, show_int}
use quantix_cnnector_go.Value.{Value, Fields, Libs, Result, err, Error}
use quantix_cnnector_go.Value.Maps.{get}
use quantix_cnnector_go.Config.Mappings.{is_empty}
use quantix_cnnector_go.Modbus.Params.{as_string, as_int, as_bool}
use quantix_cnnector_go.Tcp.{
  Tcp, Socket, new_tcp_driver, lose, disconnect, connect, not_connected, dialed, acknowledge, wrote,
  encoded, send, did_read, receive, execute_action, buffer_size, ack_read,
}
use quantix_cnnector_go.Tcp.Encode.{to_bytes}

module _ (lib : Libs) (params : Fields) (simulates : Bool) where
  abbrev pub nowhere : Bool
  nowhere =
      is_empty (as_string lib params (codes "host") [])
      || leb_ℤ (as_int lib params (codes "port") (pos 0)) (pos 0)

  -- A connection only while the driver counts as connected, and only with a host and a port; without a
  -- connection it counts as connected only if it is to simulate.
  pub record IsConnection (d : Tcp) : Type 0 where
    pub up : (d.conn && not d.connected) ≡ false
    pub placed : (d.conn && nowhere) ≡ false
    pub simulated : (d.connected && not d.conn && not simulates) ≡ false

  module _ (socket : Socket) where
    -- What an action does to the driver: nothing, or it fails and the driver is disconnected with the
    -- reason.
    pub data Outcome (d : Tcp) : Result Value × Tcp → Type 0 where
      stays : (r : Result Value) → Outcome d (r, d)
      loses :
          (e : Error) (what : Bytes) → d.conn ≡ true → Outcome d (err e, lose d (what ++ e.text))

    either-Outcome :
        (d : Tcp) (b : Bool) (x y : Result Value × Tcp)
        → (b ≡ true → Outcome d x)
        → (b ≡ false → Outcome d y)
        → Outcome d (if b then x else y)
    either-Outcome d true x y h k = h refl
    either-Outcome d false x y h k = k refl

    stays_if :
        (d : Tcp) (b : Bool) (r r' : Result Value) → Outcome d (if b then (r, d) else (r', d))
    stays_if d true r r' = stays r
    stays_if d false r r' = stays r'

    acknowledge-Outcome :
        (d : Tcp) (ps : Fields) (payload : Bytes)
        → Outcome d (acknowledge lib params simulates socket d ps payload)
    unfolding acknowledge
    acknowledge-Outcome d ps payload =
        either-Outcome d (as_bool ps (codes "wait_ack") false) _ _
          (λ p.
            either-Outcome d (not d.conn && not simulates) _ _ (λ q. stays _)
              (λ q.
                stays_if d
                  (as_bool ps (codes "ack_required") false
                    && not (ack_read lib params simulates socket d ps).ack_ok)
                  _ _))
          (λ p. stays _)

    wrote-Outcome :
        (d : Tcp) (ps : Fields) (payload : Bytes) (e : Option Error)
        → d.conn ≡ true
        → Outcome d (wrote lib params simulates socket d ps payload e)
    wrote-Outcome d ps payload none h = acknowledge-Outcome d ps payload
    wrote-Outcome d ps payload (some e) h = loses e (codes "tcp send failed: ") h

    encoded-Outcome :
        (d : Tcp) (ps : Fields) (payload : Error ⊎ Bytes)
        → Outcome d (encoded lib params simulates socket d ps payload)
    encoded-Outcome d ps (inl e) = stays (err e)
    encoded-Outcome d ps (inr payload) =
        either-Outcome d d.conn _ _ (λ h. wrote-Outcome d ps payload (socket.write payload) h)
          (λ h.
            either-Outcome d simulates _ _ (λ k. acknowledge-Outcome d ps payload) (λ k. stays _))

    did_read-Outcome :
        (d : Tcp) (r : Error ⊎ Bytes)
        → d.conn ≡ true
        → Outcome d (did_read lib params simulates socket d r)
    did_read-Outcome d (inl e) h = loses e (codes "tcp receive failed: ") h
    did_read-Outcome d (inr b) h = stays _

    receive-Outcome : (d : Tcp) (ps : Fields) → Outcome d (receive lib params simulates socket d ps)
    unfolding receive
    receive-Outcome d ps =
        either-Outcome d d.conn _ _
          (λ h.
            did_read-Outcome d (socket.read (buffer_size (as_int lib ps (codes "size") (pos 64))))
              h)
          (λ h. either-Outcome d simulates _ _ (λ k. stays _) (λ k. stays _))

    -- An action either leaves the driver as it was, or the connection failed under it: then it
    -- returns the error, and the driver is disconnected and keeps the reason. It never panics.
    pub execute_action-Outcome :
        (d : Tcp) (action : Bytes) (ps : Fields)
        → Outcome d (execute_action lib params simulates socket d action ps)
    unfolding execute_action send
    execute_action-Outcome d action ps =
        either-Outcome d (eq_bytes action (codes "tcp.send")) _ _
          (λ h. encoded-Outcome d ps (
            to_bytes lib socket.hex_error (get ps (codes "data"))
              (as_string lib ps (codes "encoding") (codes "ascii"))))
          (λ h.
            either-Outcome d (eq_bytes action (codes "tcp.receive")) _ _ (λ k. receive-Outcome d ps)
              (λ k. stays _))

    -- A failed connect.
    refused-IsConnection :
        (text : Bytes) → IsConnection (not_connected lib params simulates socket text).1
    refused-IsConnection text = record { up = refl; placed = refl; simulated = ground arith }

    dialed-IsConnection :
        (e : Option Bytes) → nowhere ≡ false → IsConnection (dialed lib params simulates socket e).1
    dialed-IsConnection none h = record { up = refl; placed = h; simulated = refl }
    dialed-IsConnection (some e) h = refused-IsConnection (codes "tcp connect failed: " ++ e)

    chosen-IsConnection :
        (b : Bool) (x y : Bool × Tcp)
        → IsConnection x.1
        → (b ≡ false → IsConnection y.1)
        → IsConnection (if b then x else y).1
    chosen-IsConnection true x y h k = h
    chosen-IsConnection false x y h k = k refl

    connect-IsConnection : (d : Tcp) → IsConnection (connect lib params simulates socket d).1
    unfolding connect
    connect-IsConnection d =
        let address : Bytes =
          as_string lib params (codes "host") []
          ++ codes ":"
          ++ show_int (as_int lib params (codes "port") (pos 0)) in
        chosen-IsConnection nowhere
          (not_connected lib params simulates socket (codes "tcp requires host and port"))
          (dialed lib params simulates socket (socket.dial address))
          (refused-IsConnection (codes "tcp requires host and port"))
          (λ h. dialed-IsConnection (socket.dial address) h)

    lose-IsConnection : (d : Tcp) (text : Bytes) → IsConnection (lose d text)
    unfolding lose
    lose-IsConnection d text = record { up = refl; placed = refl; simulated = refl }

    Outcome-IsConnection :
        {d : Tcp} {x : Result Value × Tcp} → Outcome d x → IsConnection d → IsConnection x.1
    Outcome-IsConnection (stays r) v = v
    Outcome-IsConnection {d = d} (loses e what h) v = lose-IsConnection d (what ++ e.text)

  -- Each call meets a network of its own.
  pub data Step : Tcp → Tcp → Type 0 where
    connects : (socket : Socket) (d : Tcp) → Step d (connect lib params simulates socket d).1
    disconnects : (d : Tcp) → Step d (disconnect d)
    acts :
        (socket : Socket) (d : Tcp) (action : Bytes) (ps : Fields)
        → Step d (execute_action lib params simulates socket d action ps).1

  pub data Reach : Tcp → Type 0 where
    fresh : Reach new_tcp_driver
    after : {d d' : Tcp} → Reach d → Step d d' → Reach d'

  Step-IsConnection : {d d' : Tcp} → Step d d' → IsConnection d → IsConnection d'
  unfolding disconnect
  Step-IsConnection (connects socket d) v = connect-IsConnection socket d
  Step-IsConnection (disconnects d) v = record { up = refl; placed = refl; simulated = refl }
  Step-IsConnection (acts socket d action ps) v =
      Outcome-IsConnection socket (execute_action-Outcome socket d action ps) v

  -- After any history of connects, disconnects and actions on a new driver, where the network
  -- may answer every call in another way, there is a connection only while the driver counts as connected, and only with a host
  -- and a port in the parameters; without a connection it counts as connected only if it is to
  -- simulate.
  pub Reach-IsConnection : {d : Tcp} → Reach d → IsConnection d
  unfolding new_tcp_driver
  Reach-IsConnection fresh = record { up = refl; placed = refl; simulated = refl }
  Reach-IsConnection (after r step) = Step-IsConnection step (Reach-IsConnection r)
