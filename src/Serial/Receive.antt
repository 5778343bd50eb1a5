-- ===== src/Serial/Receive.antt =====
-- internal/driver/serial.go: the loop that receives up to a delimiter or a number of bytes.
use quantix_cnnector_go.Prelude.{
  ℕ, suc, ◌+◌, ◌*◌, Bool, ◌&&◌, ◌||◌, not, Option, none, some, List, [], ◌∷◌, ◌++◌, length, take,
  ltb, if◌then◌else◌, ◌⊎◌, inl, inr,
}
use quantix_cnnector_go.Prelude.Int.{ℤ, pos, negsuc, ltb_ℤ, leb_ℤ, int_of_bits, bits_of_int}
use quantix_cnnector_go.Prelude.Text.{Bytes, has_prefix, contains}
use quantix_cnnector_go.Value.{Error}
use quantix_cnnector_go.Config.Mappings.{is_empty}

-- A turn of the loop: the clock, and what the port reads, at most 256 bytes.
pub record Turn : Type 0 where
  pub now : ℕ
  pub port_read : Error ⊎ Bytes

-- How the loop ends; it waits where no more turns are given.
pub data ReadEnd : Type 0 where
  complete : Bytes → ReadEnd
  failed : Error → ReadEnd
  waiting : ReadEnd

-- Whether the clock is behind `start` and a time that may be negative.
abbrev pub is_past : ℕ → ℤ → ℕ → Bool
is_past start (pos n) now = ltb (start + n) now
is_past start (negsuc n) now = ltb start (now + suc n)

-- The deadline of the context goes before the timeout; the product of the timeout wraps around.
abbrev pub is_late : ℕ → ℤ → Option ℕ → Turn → Bool
is_late start timeout_ms (some deadline) t = ltb deadline t.now
is_late start timeout_ms none t =
    is_past start (int_of_bits (bits_of_int timeout_ms * 1000000)) t.now

-- bytes.Index
unfoldable pub index : Bytes → Bytes → Option ℕ
unfolding has_prefix
index sep [] = if has_prefix sep [] then some 0 else none
index sep (x ∷ xs) =
    let rest = index sep xs in
    if has_prefix sep (x ∷ xs) then some 0 else elim rest [ none ↦ none | some i ↦ some (suc i) ]

abbrev pub cut_behind : Bytes → Bytes → Option ℕ → Bytes
cut_behind delimiter payload none = payload
cut_behind delimiter payload (some i) = take (i + length delimiter) payload

-- The payload up to the delimiter, if one is asked for and it is there.
unfoldable pub cut : Bytes → Bytes → Bytes
unfolding index
cut delimiter payload =
    if is_empty delimiter then payload else cut_behind delimiter payload (index delimiter payload)

module _ (size : ℤ) (delimiter : Bytes) (late : Turn → Bool) where
  -- The loop's condition.
  abbrev pub wants_more : Bytes → Bool
  wants_more buf = ltb_ℤ (pos (length buf)) size

  -- Whether a chunk ends the loop.
  abbrev pub is_enough : Bytes → Bytes → Bool
  is_enough chunk buf =
      not (is_empty chunk)
      && ((not (is_empty delimiter) && contains delimiter buf)
          || (is_empty delimiter && leb_ℤ size (pos (length buf))))

  abbrev pub then_read : Error ⊎ Bytes → (Bytes → ReadEnd) → ReadEnd
  then_read (inl e) next = failed e
  then_read (inr chunk) next = next chunk

  unfoldable pub receive_loop : Bytes → List Turn → ReadEnd
  unfolding contains
  receive_loop buf [] = if wants_more buf then waiting else complete buf
  receive_loop buf (t ∷ turns) =
      let next : ReadEnd = then_read t.port_read (λ (chunk : Bytes).
        let rest = receive_loop (buf ++ chunk) turns in
        if is_enough chunk (buf ++ chunk) then complete (buf ++ chunk) else rest) in
      if wants_more buf then (if late t then complete buf else next) else complete buf
