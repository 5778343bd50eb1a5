-- ===== src/Serial/Received.antt =====
-- What a receive of the serial driver returns (internal/driver/serial.go: receive).
use quantix_cnnector_go.Prelude.{
  ℕ, zero, suc, ◌+◌, ◌<◌, ◌≡◌, refl, sym, ap, subst, ◌∙◌, Bool, true, false, Bool-cases, ◌&&◌, ◌||◌,
  not, Option, none, some, List, [], ◌∷◌, ◌++◌, append_assoc, append-nil, length, length-append,
  take, drop, arith, ==_iff, ltb, leb, if◌then◌else◌, ◌⊎◌, inl, inr,
}
use quantix_cnnector_go.Prelude.Int.{ℤ, pos, leb_ℤ}
use quantix_cnnector_go.Prelude.Text.{Bytes, has_prefix, contains}
use quantix_cnnector_go.Value.{Error}
use quantix_cnnector_go.Config.Mappings.{is_empty}
use quantix_cnnector_go.Serial.Receive.{
  Turn, ReadEnd, complete, failed, waiting, wants_more, is_enough, then_read, receive_loop, index,
  cut, cut_behind,
}

-- A payload that is all that was read, if no delimiter is asked for or none is there, and else ends
-- with the first one.
pub data IsFrame (delimiter buf : Bytes) : Bytes → Type 0 where
  whole : not (is_empty delimiter) && contains delimiter buf ≡ false → IsFrame delimiter buf buf
  framed :
      (before rest : Bytes)
      → buf ≡ before ++ delimiter ++ rest
      → ((k : ℕ) → k < length before → has_prefix delimiter (drop k buf) ≡ false)
      → IsFrame delimiter buf (before ++ delimiter)

-- What index finds.
data Place (sep s : Bytes) : Option ℕ → Type 0 where
  nowhere : contains sep s ≡ false → Place sep s none
  first :
      (before rest : Bytes)
      → s ≡ before ++ sep ++ rest
      → ((k : ℕ) → k < length before → has_prefix sep (drop k s) ≡ false)
      → Place sep s (some (length before))

has_prefix-split : (sep s : Bytes) → has_prefix sep s ≡ true → s ≡ sep ++ drop (length sep) s
unfolding has_prefix
has_prefix-split [] s h = refl
has_prefix-split (p ∷ sep) [] h = cc
has_prefix-split (p ∷ sep) (x ∷ s) h = ground (arith, ==_iff p x, has_prefix-split sep s)

prefix-Place :
    (sep s : Bytes) (r : Option ℕ)
    → (has_prefix sep s ≡ false → Place sep s r)
    → Place sep s (if has_prefix sep s then some 0 else r)
prefix-Place sep s r h = elim (Bool-cases (has_prefix sep s)) [
  | inl p ↦
      rw p (first [] (drop (length sep) s) (has_prefix-split sep s p) (λ k q. absurd (omega arith)))
  | inr p ↦ rw p (h p)
]

later-Place :
    (sep : Bytes) (x : ℕ) (s : Bytes) (r : Option ℕ)
    → has_prefix sep (x ∷ s) ≡ false
    → Place sep s r
    → Place sep (x ∷ s) (elim r [ none ↦ none | some i ↦ some (suc i) ])
unfolding contains
later-Place sep x s none p (nowhere h) = nowhere (rw (p, h) refl)
later-Place sep x s (some _) p (first before rest e h) =
    first (x ∷ before) rest (ap (◌∷◌ x) e) (λ k.
      elim k as (λ k. k < suc (length before) → has_prefix sep (drop k (x ∷ s)) ≡ false) [
        | zero ↦ λ q. p
        | suc j ↦ λ q. h j (omega arith)
      ])

index-Place : (sep s : Bytes) → Place sep s (index sep s)
unfolding index contains
index-Place sep [] = prefix-Place sep [] none (λ p. nowhere p)
index-Place sep (x ∷ s) =
    prefix-Place sep (x ∷ s) _ (λ p. later-Place sep x s (index sep s) p (index-Place sep s))

take_prefix : (a c : Bytes) → take (length a) (a ++ c) ≡ a
take_prefix [] c = refl
take_prefix (x ∷ a) c = ap (◌∷◌ x) (take_prefix a c)

take-whole : (a b c : Bytes) → take (length a + length b) (a ++ b ++ c) ≡ a ++ b
take-whole a b c =
    subst (λ n. take n (a ++ b ++ c) ≡ a ++ b) (length-append a b) (take_prefix (a ++ b) c)

cut_behind-IsFrame :
    (delimiter payload : Bytes) (r : Option ℕ)
    → Place delimiter payload r
    → IsFrame delimiter payload (cut_behind delimiter payload r)
cut_behind-IsFrame delimiter payload none (nowhere h) = whole (rw h (ground arith))
cut_behind-IsFrame delimiter payload (some _) (first before rest e h) =
    subst (IsFrame delimiter payload)
      (sym (ap (take (length before + length delimiter)) e ∙ take-whole before delimiter rest))
      (framed before rest e h)

pub cut-IsFrame : (delimiter payload : Bytes) → IsFrame delimiter payload (cut delimiter payload)
unfolding cut
cut-IsFrame [] payload = whole refl
cut-IsFrame (x ∷ delimiter) payload =
    cut_behind-IsFrame (x ∷ delimiter) payload _ (index-Place (x ∷ delimiter) payload)

abbrev got : Error ⊎ Bytes → Bytes
got (inl e) = []
got (inr chunk) = chunk

-- The bytes that these turns read.
abbrev pub received : List Turn → Bytes
received [] = []
received (t ∷ turns) = got t.port_read ++ received turns

nothing_there : (sep : Bytes) → not (is_empty sep) && contains sep [] ≡ false
unfolding contains has_prefix
nothing_there [] = refl
nothing_there (c ∷ sep) = refl

module _ (size : ℤ) (delimiter : Bytes) (late : Turn → Bool) where
  abbrev pub has_delimiter : Bytes → Bool
  has_delimiter buf = not (is_empty delimiter) && contains delimiter buf

  -- Why a loop that has these bytes ends before these turns.
  pub data IsDone (buf : Bytes) : List Turn → Type 0 where
    has_size : {turns : List Turn} → leb_ℤ size (pos (length buf)) ≡ true → IsDone buf turns
    finds_delimiter : {turns : List Turn} → has_delimiter buf ≡ true → IsDone buf turns
    has_no_time : {t : Turn} {turns : List Turn} → late t ≡ true → IsDone buf (t ∷ turns)

  -- A turn is taken: it is on time, and the bytes before it are too few and without the delimiter.
  pub record IsWanted (buf : Bytes) (t : Turn) : Type 0 where
    pub on_time : late t ≡ false
    pub too_few : leb_ℤ size (pos (length buf)) ≡ false
    pub unfinished : has_delimiter buf ≡ false

  abbrev pub AllWanted : Bytes → List Turn → Type 0
  AllWanted buf [] = Unit {0}
  AllWanted buf (t ∷ turns) = IsWanted buf t × AllWanted (buf ++ got t.port_read) turns

  -- The turns that a loop takes, those it does not take, and its end.
  pub data Collects (buf : Bytes) : List Turn → ReadEnd → Type 0 where
    completes :
        (taken turns : List Turn)
        → AllWanted buf taken
        → IsDone (buf ++ received taken) turns
        → Collects buf (taken ++ turns) (complete (buf ++ received taken))
    fails :
        (taken turns : List Turn) (t : Turn) (e : Error)
        → AllWanted buf (taken ++ t ∷ [])
        → t.port_read ≡ inl e
        → Collects buf (taken ++ (t ∷ turns)) (failed e)
    waits : {turns : List Turn} → AllWanted buf turns → Collects buf turns waiting

  at_once : (buf : Bytes) (turns : List Turn) → IsDone buf turns → Collects buf turns (complete buf)
  at_once buf turns d =
      subst (λ b. Collects buf turns (complete b)) (append-nil buf)
        (completes [] turns tt (subst (λ b. IsDone b turns) (sym (append-nil buf)) d))

  reaches : (x y : ℕ) → ltb x y ≡ false → leb y x ≡ true
  reaches x y h = ground arith

  falls_short : (x y : ℕ) → ltb x y ≡ true → leb y x ≡ false
  falls_short x y h = ground arith

  enough-IsDone :
      (chunk buf : Bytes) (turns : List Turn)
      → is_enough size delimiter late chunk buf ≡ true
      → IsDone buf turns
  enough-IsDone chunk buf turns h =
      elim (whichever (is_empty chunk) (is_empty delimiter) (contains delimiter buf)
        (leb_ℤ size (pos (length buf))) h) [ inl p ↦ finds_delimiter p | inr p ↦ has_size p ]
    where
      whichever :
          (e d c f : Bool)
          → not e && ((not d && c) || (d && f)) ≡ true
          → (not d && c ≡ true) ⊎ (f ≡ true)
      whichever true d c f h = inl (cc)
      whichever false true c f h = inr h
      whichever false false true f h = inl refl
      whichever false false false f h = inl h

  -- A chunk that does not end the loop brings no delimiter.
  not_enough :
      (buf chunk : Bytes)
      → has_delimiter buf ≡ false
      → is_enough size delimiter late chunk (buf ++ chunk) ≡ false
      → has_delimiter (buf ++ chunk) ≡ false
  not_enough buf [] h e = subst (λ b. has_delimiter b ≡ false) (sym (append-nil buf)) h
  not_enough buf (x ∷ chunk) h e =
      neither (is_empty delimiter) (contains delimiter (buf ++ x ∷ chunk)) _ e
    where
      neither : (d c f : Bool) → (not d && c) || (d && f) ≡ false → not d && c ≡ false
      neither true c f h = refl
      neither false true f h = h
      neither false false f h = refl

  more-Collects :
      (buf chunk : Bytes) (t : Turn) (turns : List Turn) (r : ReadEnd)
      → IsWanted buf t
      → t.port_read ≡ inr chunk
      → Collects (buf ++ chunk) turns r
      → Collects buf (t ∷ turns) r
  more-Collects buf chunk t _ _ on h (completes taken turns o d) =
      let e : buf ++ received (t ∷ taken) ≡ (buf ++ chunk) ++ received taken =
        ap (λ g. buf ++ (got g ++ received taken)) h
        ∙ sym (append_assoc buf chunk (received taken)) in
      subst (λ b. Collects buf (t ∷ (taken ++ turns)) (complete b)) e
        (completes (t ∷ taken) turns (on, subst (λ g. AllWanted (buf ++ got g) taken) (sym h) o)
          (subst (λ b. IsDone b turns) (sym e) d))
  more-Collects buf chunk t _ _ on h (fails taken turns u e o k) =
      fails (t ∷ taken) turns u e
        (on, subst (λ g. AllWanted (buf ++ got g) (taken ++ u ∷ [])) (sym h) o) k
  more-Collects buf chunk t turns _ on h (waits o) =
      waits (on, subst (λ g. AllWanted (buf ++ got g) turns) (sym h) o)

  either :
      (P : ReadEnd → Type 0) (b : Bool) (x y : ReadEnd)
      → (b ≡ true → P x)
      → (b ≡ false → P y)
      → P (if b then x else y)
  either P true x y h k = h refl
  either P false x y h k = k refl

  turn-Collects :
      (buf : Bytes) (t : Turn) (turns : List Turn) (r : Error ⊎ Bytes) (next : Bytes → ReadEnd)
      → IsWanted buf t
      → t.port_read ≡ r
      → ((chunk : Bytes)
          → has_delimiter (buf ++ chunk) ≡ false
          → Collects (buf ++ chunk) turns (next chunk))
      → Collects buf (t ∷ turns) (
          then_read size delimiter late r (λ (chunk : Bytes).
            if is_enough size delimiter late chunk (buf ++ chunk)
            then complete (buf ++ chunk)
            else next chunk))
  turn-Collects buf t turns (inl e) next on h ih = fails [] turns t e (on, tt) h
  turn-Collects buf t turns (inr chunk) next on h ih = more-Collects buf chunk t turns _ on h (
      either (Collects (buf ++ chunk) turns) (is_enough size delimiter late chunk (buf ++ chunk)) _
        _ (λ p. at_once (buf ++ chunk) turns (enough-IsDone chunk (buf ++ chunk) turns p))
        (λ p. ih chunk (not_enough buf chunk on.unfinished p)))

  -- The loop takes the turns that are on time while there are too few bytes and no delimiter, until a
  -- read fails; it only waits while no turn is late.
  pub receive_loop-Collects :
      (buf : Bytes) (turns : List Turn)
      → has_delimiter buf ≡ false
      → Collects buf turns (receive_loop size delimiter late buf turns)
  unfolding receive_loop
  receive_loop-Collects buf [] free =
      either (Collects buf []) (wants_more size delimiter late buf) _ _ (λ p. waits tt)
        (λ p. at_once buf [] (has_size (reaches _ _ p)))
  receive_loop-Collects buf (t ∷ turns) free =
      either (Collects buf (t ∷ turns)) (wants_more size delimiter late buf) _ _
        (λ p.
          either (Collects buf (t ∷ turns)) (late t) _ _
            (λ q. at_once buf (t ∷ turns) (has_no_time q))
            (λ q.
              turn-Collects buf t turns t.port_read
                (λ chunk. receive_loop size delimiter late (buf ++ chunk) turns)
                (record { on_time = q; too_few = falls_short _ _ p; unfinished = free }) refl
                (λ chunk free'. receive_loop-Collects (buf ++ chunk) turns free')))
        (λ p. at_once buf (t ∷ turns) (has_size (reaches _ _ p)))

  -- A loop starts without bytes.
  pub none-unfinished : has_delimiter [] ≡ false
  none-unfinished = nothing_there delimiter
