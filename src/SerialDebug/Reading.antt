-- ===== src/SerialDebug/Reading.antt =====
-- internal/service/serial_debug_service.go: reading from the port (Read).
pub mod Received
use quantix_cnnector_go.Prelude.{
  ℕ, zero, suc, ◌+◌, ◌-◌, ◌*◌, ◌≤◌, ◌<◌, ◌≡◌, refl, ap, sym, subst, ◌∙◌, Bool, true, false,
  Bool-cases, ◌||◌, List, [], ◌∷◌, ◌++◌, append_assoc, append-nil, arith, length, length-append,
  length-take, take, take_all, ltb, lt→ltb, if◌then◌else◌, ◌⊎◌, inl, inr,
}
use quantix_cnnector_go.Prelude.Int.{ℤ, pos, negsuc, leb_ℤ, pos_part}
use quantix_cnnector_go.Prelude.Text.{Bytes, codes, hex_spaced}
use quantix_cnnector_go.Value.{bool, int, string, Fields, end, field, Error, errorf, wrap_errorf}
use quantix_cnnector_go.SerialDebug.{SerialDebugService, append_log}
use quantix_cnnector_go.Config.Mappings.{is_empty}

-- A turn of the loop: whether the caller's context has ended, the clock in nanoseconds, and what the
-- port reads, at most 512 bytes.
pub record Turn : Type 0 where
  pub ended : Bool
  pub now : ℕ
  pub port_read : Error ⊎ Bytes

-- How the loop ends, with the bytes it has; it waits where no more turns are given.
pub data ReadEnd : Type 0 where
  canceled : Bytes → ReadEnd
  complete : Bytes → ReadEnd
  failed : Error → ReadEnd
  waiting : ReadEnd

abbrev pub stops : Bool → Bool → Bytes → ReadEnd → ReadEnd
stops true late buf next = canceled buf
stops false true buf next = complete buf
stops false false buf next = next

abbrev pub then_read : Error ⊎ Bytes → (Bytes → ReadEnd) → ReadEnd
then_read (inl e) next = failed e
then_read (inr chunk) next = next chunk

module _ (deadline max_bytes : ℕ) where
  abbrev pub is_late : Turn → Bool
  is_late t = ltb deadline t.now

  unfoldable pub read_loop : Bytes → List Turn → ReadEnd
  read_loop buf [] = if ltb (length buf) max_bytes then waiting else complete buf
  read_loop buf (t ∷ turns) =
      let next : ReadEnd =
        then_read t.port_read
          (λ (chunk : Bytes). read_loop (buf ++ take (max_bytes - length buf) chunk) turns) in
      if ltb (length buf) max_bytes then stops t.ended (is_late t) buf next else complete buf

abbrev pub bytes_wanted : ℤ → ℕ
bytes_wanted n = if leb_ℤ n (pos 0) then 1 else pos_part n

abbrev read_result : Bytes → Bytes → Bytes → Fields
read_result now encoding buf = field (codes "ok") (bool true) (
    field (codes "bytes_read") (int (pos (length buf))) (
      field (codes "payload_text") (string buf) (
        field (codes "payload_hex") (string (hex_spaced buf)) (
          field (codes "timestamp") (string now)
            (field (codes "encoding") (string encoding) end)))))

-- `stuck` where the turns that are given do not end the loop.
pub data Read : Type 0 where
  returned : Error ⊎ Fields → Read
  stuck : Read

module _ (now encoding : Bytes) where
  unfoldable pub read_ended : SerialDebugService → ReadEnd → Read × SerialDebugService
  read_ended s (canceled buf) = (returned (inr (read_result now encoding buf)), s)
  read_ended s (complete buf) = (
    returned (inr (read_result now encoding buf)),
    if is_empty buf then s else append_log now s (codes "RX") buf buf,
  )
  read_ended s (failed e) = (
    returned (inl (wrap_errorf (codes "serial read failed: " ++ e.text))),
    record s { last_err = e.text },
  )
  read_ended s waiting = (stuck, s)

  -- `start` is the clock when the read begins.
  unfoldable pub read : SerialDebugService → ℤ → ℤ → ℕ → List Turn → Read × SerialDebugService
  unfolding read_loop read_ended
  read s max_bytes timeout_ms start turns =
      let deadline = start + pos_part timeout_ms * 1000000 in
      if s.port
      then read_ended s (read_loop deadline (bytes_wanted max_bytes) [] turns)
      else (returned (inl (errorf (codes "serial debugger is not connected"))), s)
