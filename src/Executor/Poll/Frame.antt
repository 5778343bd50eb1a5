-- ===== src/Executor/Poll/Frame.antt =====
-- Which steps a poll runs, and what it does to the results of the others (RunPollSteps).
use quantix_cnnector_go.Prelude.{
  if◌then◌else◌, Bool, true, false, ◌&&◌, ◌||◌, none, some, Option-cases, Bool-cases, ◌⊎◌, inl, inr,
  ◌≡◌, refl, sym, ◌∙◌, ap, arith,
}
use quantix_cnnector_go.Prelude.Text.{Bytes, codes, eq_bytes}
use quantix_cnnector_go.Value.{
  Value, Items, nil, cons, Fields, end, object, Libs, Result, ok, err, panic, Error, as_object,
}
use quantix_cnnector_go.Value.Maps.{get?, set, get?-set}
use quantix_cnnector_go.Driver.{Driver}
use quantix_cnnector_go.Executor.Step.{execute_step}
use quantix_cnnector_go.Executor.Poll.{step_id, trigger, poll_loop, result_entry}

abbrev pub is_poll : Libs → Fields → Bool
is_poll lib step = eq_bytes (trigger lib step) (codes "poll")

-- Whether an entry of the template's list is a step that a poll runs, and one with this id.
unfoldable pub polls : Libs → Value → Bool
polls lib x = elim (as_object x) [ none ↦ false | some step ↦ is_poll lib step ]

unfoldable pub writes : Libs → Bytes → Value → Bool
writes lib k x = elim (as_object x) [
  | none ↦ false
  | some step ↦ is_poll lib step && eq_bytes (step_id lib step) k
]

abbrev pub writes_any : Libs → Bytes → Items → Bool
writes_any lib k nil = false
writes_any lib k (cons x rest) = writes lib k x || writes_any lib k rest

-- The list with only the steps that a poll runs.
abbrev pub poll_only : Libs → Items → Items
poll_only lib nil = nil
poll_only lib (cons x rest) =
    if polls lib x then cons x (poll_only lib rest) else poll_only lib rest

abbrev pub append : Items → Items → Items
append nil ys = ys
append (cons x xs) ys = cons x (append xs ys)

module _ (lib : Libs) {D : Type 0} (drv : Driver D) (canceled shared : Bool) where
  abbrev pub loop : Items → Fields → Fields → D → Result Fields × D
  loop = poll_loop lib drv canceled shared

  abbrev pub context_after : Fields → Fields → Fields
  context_after results context =
      if shared then set context (codes "steps") (object results) else context

  -- What the loop does at one entry, whatever follows.
  pub data Round (x : Value) (results context : Fields) (d : D) : Type 0 where
    skips :
        polls lib x ≡ false
        → ((k : Bytes) → writes lib k x ≡ false)
        → ((rest : Items) → loop (cons x rest) results context d ≡ loop rest results context d)
        → Round x results context d
    runs :
        (step : Fields) (v : Value) (d' : D)
        → polls lib x ≡ true
        → as_object x ≡ some step
        → is_poll lib step ≡ true
        → execute_step lib drv canceled d step context end false ≡ (ok v, d')
        → ((k : Bytes) → writes lib k x ≡ eq_bytes (step_id lib step) k)
        → ((rest : Items)
            → (results' : Fields) → results' ≡ set results (step_id lib step) (result_entry v)
            → loop (cons x rest) results context d
              ≡ loop rest results' (context_after results' context) d')
        → Round x results context d
    stops :
        (r : Result Fields) (d' : D)
        → polls lib x ≡ true
        → ((out : Fields) → r ≡ ok out → ⊥)
        → ((rest : Items) → loop (cons x rest) results context d ≡ (r, d'))
        → Round x results context d

  Step-cases :
      (p : Result Value × D)
      → ((v : Value) × (d' : D) × (p ≡ (ok v, d')))
        ⊎ ((e : Error) × (d' : D) × (p ≡ (err e, d')))
        ⊎ ((d' : D) × (p ≡ (panic, d')))
  Step-cases (ok v, d') = inl (v, d', refl)
  Step-cases (err e, d') = inr (inl (e, d', refl))
  Step-cases (panic, d') = inr (inr (d', refl))

  pub round : (x : Value) (results context : Fields) (d : D) → Round x results context d
  unfolding poll_loop polls writes
  round x results context d = elim (Option-cases (as_object x)) [
    | inl e ↦ skips (ground arith) (λ k. ground arith) (λ rest. rw (e, poll_loop))
    | inr (step, e) ↦ elim (Bool-cases (is_poll lib step)) [
      | inr manual ↦ skips (ground arith) (λ k. ground arith) (λ rest. rw (e, poll_loop, manual))
      | inl poll ↦ elim (Step-cases (execute_step lib drv canceled d step context end false)) [
        | inl (v, d', q) ↦
            runs step v d' (ground arith) e poll q (λ k. ground arith)
              (λ rest results' f. rw f (ground arith))
        | inr (inl (err', d', q)) ↦
            stops (err err') d' (ground arith) (λ out h. cc) (λ rest. ground arith)
        | inr (inr (d', q)) ↦ stops panic d' (ground arith) (λ out h. cc) (λ rest. ground arith)
      ]
    ]
  ]

  -- A poll runs exactly the steps of the template that a poll triggers: with all other entries taken out
  -- it makes the same calls of the driver, in the same order, and gives the same results or error.
  pub poll_loop-poll_only :
      (steps : Items) (results context : Fields) (d : D)
      → poll_loop lib drv canceled shared (poll_only lib steps) results context d
        ≡ poll_loop lib drv canceled shared steps results context d
  poll_loop-poll_only nil results context d = refl
  poll_loop-poll_only (cons x rest) results context d = elim (round x results context d) [
    | skips other w eq ↦ rw other (poll_loop-poll_only rest results context d ∙ sym (eq rest))
    | runs step v d' poll _ _ _ w eq ↦
        let results' : Fields = set results (step_id lib step) (result_entry v) in
        rw poll (
          eq (poll_only lib rest) results' refl
          ∙ poll_loop-poll_only rest results' (context_after results' context) d'
          ∙ sym (eq rest results' refl))
    | stops r d' poll bad eq ↦ rw poll (eq (poll_only lib rest) ∙ sym (eq rest))
  ]

  pub poll_loop-results :
      (steps : Items) (results context : Fields) (d d' : D) (out : Fields) (k : Bytes)
      → poll_loop lib drv canceled shared steps results context d ≡ (ok out, d')
      → (writes_any lib k steps ≡ false → get? out k ≡ get? results k)
        × (writes_any lib k steps ≡ true → (v : Value) × (get? out k ≡ some (result_entry v)))
  unfolding poll_loop
  poll_loop-results nil results context d d' out k h = (λ _. ground arith, λ f. cc)
  poll_loop-results (cons x rest) results context d d' out k h = elim (round x results context d) [
    | skips other w eq ↦
        let ih = poll_loop-results rest results context d d' out k (sym (eq rest) ∙ h) in
        rw (w k) ih
    | runs step v d1 poll _ _ _ w eq ↦
        let results' : Fields = set results (step_id lib step) (result_entry v) in
        let ih =
          poll_loop-results rest results' (context_after results' context) d1 d' out k
            (sym (eq rest results' refl) ∙ h) in
        (
          λ f. ground (arith, w k, ih.0, get?-set results (step_id lib step) k (result_entry v)),
          λ f. elim (Bool-cases (writes_any lib k rest)) [
            | inl again ↦ ih.1 again
            | inr last ↦ (
              v,
              ground (arith, w k, ih.0, get?-set results (step_id lib step) k (result_entry v)),
            )
          ],
        )
    | stops r d1 poll bad eq ↦
        absurd (bad out (ap (λ (p : Result Fields × D). p.0) (sym (eq rest) ∙ h)))
  ]

  module _ (steps : Items) (results context : Fields) (d d' : D) (out : Fields) (k : Bytes)
      (done : poll_loop lib drv canceled shared steps results context d ≡ (ok out, d')) where
    -- After a poll that succeeds the result under an id that no step of the poll has is the previous one.
    pub poll_loop-frame : writes_any lib k steps ≡ false → get? out k ≡ get? results k
    poll_loop-frame h = (poll_loop-results steps results context d d' out k done).0 h

  -- A poll ends at the first step that fails: whatever steps follow, it makes no further call of the
  -- driver, and gives the same error.
  pub poll_loop-stops :
      (steps more : Items) (results context : Fields) (d d' : D) (e : Error)
      → poll_loop lib drv canceled shared steps results context d ≡ (err e, d')
      → poll_loop lib drv canceled shared (append steps more) results context d ≡ (err e, d')
  unfolding poll_loop
  poll_loop-stops nil more results context d d' e h = cc
  poll_loop-stops (cons x rest) more results context d d' e h = elim (round x results context d) [
    | skips other w eq ↦
        eq (append rest more) ∙ poll_loop-stops rest more results context d d' e (sym (eq rest) ∙ h)
    | runs step v d1 poll _ _ _ w eq ↦
        let results' : Fields = set results (step_id lib step) (result_entry v) in
        eq (append rest more) results' refl
        ∙ poll_loop-stops rest more results' (context_after results' context) d1 d' e
            (sym (eq rest results' refl) ∙ h)
    | stops r d1 poll bad eq ↦ eq (append rest more) ∙ sym (eq rest) ∙ h
  ]
