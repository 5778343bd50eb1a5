-- ===== src/SerialDebug/Reading/Received.antt =====
-- The bytes that a read delivers, and that it ends (Read).
use quantix_cnnector_go.Prelude.{
  ℕ, zero, suc, ◌+◌, ◌-◌, ◌≤◌, ◌<◌, ◌≡◌, refl, ap, sym, subst, ◌∙◌, Bool, true, false, Bool-cases,
  ◌||◌, List, [], ◌∷◌, ◌++◌, append_assoc, append-nil, arith, length, length-append, length-take,
  take, take_all, ltb, lt→ltb, if◌then◌else◌, ◌⊎◌, inl, inr,
}
use quantix_cnnector_go.Prelude.Text.{Bytes}
use quantix_cnnector_go.Value.{Error}
use quantix_cnnector_go.SerialDebug.Reading.{
  Turn, ReadEnd, canceled, complete, failed, waiting, stops, then_read, is_late, read_loop,
}

take-append : (m : ℕ) (c r : Bytes) → take m (take m c ++ r) ≡ take m (c ++ r)
take-append zero c r = refl
take-append (suc m) [] r = refl
take-append (suc m) (x ∷ c) r = ap (◌∷◌ x) (take-append m c r)

take-behind :
    (m k : ℕ) (b c r : Bytes)
    → length b + k ≡ m
    → take m ((b ++ take k c) ++ r) ≡ take m ((b ++ c) ++ r)
take-behind m k [] c r h =
    let e : k ≡ m = omega arith in
    subst (λ j. take m (take j c ++ r) ≡ take m (c ++ r)) (sym e) (take-append m c r)
take-behind zero k (x ∷ b) c r h = refl
take-behind (suc m) k (x ∷ b) c r h = ap (◌∷◌ x) (take-behind m k b c r (omega arith))

take-prefix : (m : ℕ) (b r : Bytes) → length b ≡ m → b ≡ take m (b ++ r)
take-prefix zero [] r h = refl
take-prefix zero (x ∷ b) r h = absurd (omega arith)
take-prefix (suc m) [] r h = absurd (omega arith)
take-prefix (suc m) (x ∷ b) r h = ap (◌∷◌ x) (take-prefix m b r (omega arith))

take-whole : (m : ℕ) (b : Bytes) → length b ≤ m → b ≡ take m (b ++ [])
take-whole m b h = rw (append-nil b) (sym (take_all m b h))

abbrev got : Error ⊎ Bytes → Bytes → Bytes
got (inl e) rest = []
got (inr chunk) rest = chunk ++ rest

abbrev pub Delivers : Bytes → ReadEnd → Type 0
Delivers expected (canceled buf) = buf ≡ expected
Delivers expected (complete buf) = buf ≡ expected
Delivers expected (failed e) = Unit {0}
Delivers expected waiting = Unit {0}

turn-Delivers :
    (m : ℕ) (buf rest : Bytes) (ended late : Bool) (r : Error ⊎ Bytes) (next : Bytes → ReadEnd)
    → length buf ≤ m
    → ((chunk : Bytes)
        → Delivers (take m ((buf ++ take (m - length buf) chunk) ++ rest)) (next chunk))
    → Delivers
        (take m (buf ++ (if ended || late then [] else got r rest)))
        (stops ended late buf (then_read r next))
turn-Delivers m buf rest true late r next h ih = take-whole m buf h
turn-Delivers m buf rest false true r next h ih = take-whole m buf h
turn-Delivers m buf rest false false (inl e) next h ih = tt
turn-Delivers m buf rest false false (inr chunk) next h ih =
    subst (λ x. Delivers x (next chunk))
      (take-behind m (m - length buf) buf chunk rest (omega arith)
        ∙ ap (take m) (append_assoc buf chunk rest))
      (ih chunk)

module _ (deadline max_bytes : ℕ) where
  -- What comes in before the context ends, the deadline passes or the port fails.
  abbrev pub received : List Turn → Bytes
  received [] = []
  received (t ∷ turns) =
      let rest = received turns in
      if t.ended || is_late deadline max_bytes t then [] else got t.port_read rest

  read_loop-Delivers :
      (buf : Bytes) (turns : List Turn)
      → length buf ≤ max_bytes
      → Delivers (take max_bytes (buf ++ received turns)) (read_loop deadline max_bytes buf turns)
  unfolding read_loop
  read_loop-Delivers buf [] h = elim (Bool-cases (ltb (length buf) max_bytes)) [
    | inl e ↦ rw e tt
    | inr e ↦ rw e (take-whole max_bytes buf h)
  ]
  read_loop-Delivers buf (t ∷ turns) h = elim (Bool-cases (ltb (length buf) max_bytes)) [
    | inl e ↦ rw e (
        turn-Delivers max_bytes buf (received turns) t.ended (is_late deadline max_bytes t)
          t.port_read
          (λ chunk. read_loop deadline max_bytes (buf ++ take (max_bytes - length buf) chunk) turns)
          h
          (λ chunk. read_loop-Delivers (buf ++ take (max_bytes - length buf) chunk) turns (
            omega (
              arith,
              length-append buf (take (max_bytes - length buf) chunk),
              length-take (max_bytes - length buf) chunk,
            ))))
    | inr e ↦ rw e (take-prefix max_bytes buf (received (t ∷ turns)) (ground (arith, e)))
  ]

  -- The bytes of a read that does not fail are the first that came in before the deadline or the
  -- end of the context, as many as were wanted: none is lost, repeated or out of order.
  pub read_loop-received :
      (turns : List Turn)
      → Delivers (take max_bytes (received turns)) (read_loop deadline max_bytes [] turns)
  read_loop-received turns = read_loop-Delivers [] turns (omega arith)

  -- A turn whose clock has passed the deadline.
  abbrev pub HasLate : List Turn → Type 0
  HasLate [] = ⊥
  HasLate (t ∷ turns) = (deadline < t.now) ⊎ HasLate turns

abbrev pub Ends : ReadEnd → Type 0
Ends (canceled buf) = Unit {0}
Ends (complete buf) = Unit {0}
Ends (failed e) = Unit {0}
Ends waiting = ⊥

turn-Ends :
    (room ended late : Bool) (buf : Bytes) (r : Error ⊎ Bytes) (next : Bytes → ReadEnd)
    → (late ≡ true) ⊎ ((chunk : Bytes) → Ends (next chunk))
    → Ends (if room then stops ended late buf (then_read r next) else complete buf)
turn-Ends false ended late buf r next h = tt
turn-Ends true true late buf r next h = tt
turn-Ends true false true buf r next h = tt
turn-Ends true false false buf (inl e) next h = tt
turn-Ends true false false buf (inr chunk) next (inl h) = absurd (distinct h)
  where
    distinct : false ≡ true → ⊥
    distinct p = cc
turn-Ends true false false buf (inr chunk) next (inr h) = h chunk

module _ (deadline max_bytes : ℕ) where
  -- A read ends, whatever the port does, once the clock has passed its deadline.
  pub read_loop-Ends :
      (buf : Bytes) (turns : List Turn)
      → HasLate deadline max_bytes turns
      → Ends (read_loop deadline max_bytes buf turns)
  unfolding read_loop
  read_loop-Ends buf [] h = absurd h
  read_loop-Ends buf (t ∷ turns) (inl now) =
      turn-Ends (ltb (length buf) max_bytes) t.ended (is_late deadline max_bytes t) buf t.port_read
        (λ chunk. read_loop deadline max_bytes (buf ++ take (max_bytes - length buf) chunk) turns)
        (inl (lt→ltb deadline t.now now))
  read_loop-Ends buf (t ∷ turns) (inr later) =
      turn-Ends (ltb (length buf) max_bytes) t.ended (is_late deadline max_bytes t) buf t.port_read
        (λ chunk. read_loop deadline max_bytes (buf ++ take (max_bytes - length buf) chunk) turns)
        (inr (λ chunk. read_loop-Ends (buf ++ take (max_bytes - length buf) chunk) turns later))
