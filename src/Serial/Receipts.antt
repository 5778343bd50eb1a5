-- ===== src/Serial/Receipts.antt =====
-- What receiving over an open port gives (internal/driver/serial.go: ExecuteAction, receive).
use quantix_cnnector_go.Prelude.{
  ◌≡◌, Bool, true, false, none, some, List, [], ◌∷◌, ◌++◌, inl, if◌then◌else◌,
}
use quantix_cnnector_go.Prelude.Int.{ℤ, pos}
use quantix_cnnector_go.Prelude.Text.{Bytes, codes, eq_bytes}
use quantix_cnnector_go.Value.{Fields, Libs, ok, err, Error}
use quantix_cnnector_go.Modbus.Params.{as_int}
use quantix_cnnector_go.Serial.{
  Serial, Port, Answer, lose, size_of, delimiter_of, payload_of, did_read, receive, execute_action,
}
use quantix_cnnector_go.Serial.Receive.{Turn, ReadEnd, is_late, cut}
use quantix_cnnector_go.Serial.Received.{
  IsFrame, IsDone, Collects, received, AllWanted, completes, fails, waits, cut-IsFrame,
  receive_loop-Collects, none-unfinished,
}

module _ (lib : Libs) (hex_error : Bytes → Error) (io : Port) (d : Serial) (ps : Fields) where
  abbrev pub late : Turn → Bool
  late = is_late io.start (as_int lib ps (codes "timeout") (pos 1000)) io.ctx_deadline

  abbrev size : ℤ
  size = size_of lib hex_error io ps

  abbrev delimiter : Bytes
  delimiter = delimiter_of lib hex_error io ps

  -- The answer to a receive that meets these turns, and the driver after it.
  pub data Receipt : List Turn → Answer × Serial → Type 0 where
    returns :
        (taken turns : List Turn) (payload : Bytes)
        → AllWanted size delimiter late [] taken
        → IsDone size delimiter late (received taken) turns
        → IsFrame delimiter (received taken) payload
        → Receipt (taken ++ turns) (some (ok (payload_of lib hex_error io payload)), d)
    breaks :
        (taken turns : List Turn) (t : Turn) (e : Error)
        → AllWanted size delimiter late [] (taken ++ t ∷ [])
        → t.port_read ≡ inl e
        → Receipt
            (taken ++ (t ∷ turns))
            (some (err e), lose d (codes "serial receive failed: " ++ e.text))
    runs_on : {turns : List Turn} → AllWanted size delimiter late [] turns → Receipt turns (none, d)

  Collects-Receipt :
      {turns : List Turn} {r : ReadEnd}
      → Collects size delimiter late [] turns r
      → Receipt turns (did_read lib hex_error io d delimiter r)
  Collects-Receipt (completes taken turns o done) =
      returns taken turns (cut delimiter (received taken)) o done
        (cut-IsFrame delimiter (received taken))
  Collects-Receipt (fails taken turns t e o h) = breaks taken turns t e o h
  Collects-Receipt (waits o) = runs_on o

  when_open :
      (b : Bool) (x y : Answer × Serial)
      → b ≡ true
      → Receipt io.turns x
      → Receipt io.turns (if b then x else y)
  when_open true x y h r = r
  when_open false x y h r = absurd (distinct h)
    where
      distinct : false ≡ true → ⊥
      distinct e = cc

  -- Over an open port serial.receive takes exactly the turns that are on time while what was read
  -- before is shorter than the size asked for and has no delimiter, if one is asked for; then it
  -- returns what it has up to the first delimiter. A read that fails is returned and closes the
  -- port. Where the turns that are given run out it has not ended yet.
  pub execute_action-Receipt :
      d.port ≡ true
      → Receipt io.turns (execute_action lib hex_error io d (codes "serial.receive") ps)
  unfolding execute_action receive eq_bytes
  execute_action-Receipt h = when_open d.port _ _ h (
      Collects-Receipt (
        receive_loop-Collects size delimiter late [] io.turns
          (none-unfinished size delimiter late)))
