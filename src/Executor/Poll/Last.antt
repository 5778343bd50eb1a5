-- ===== src/Executor/Poll/Last.antt =====
-- Where the results of a poll come from (internal/service/protocol_executor.go: RunPollSteps).
use quantix_cnnector_go.Prelude.{
  if◌then◌else◌, Bool, true, false, ◌||◌, some, Bool-cases, inl, inr, ◌≡◌, refl, sym, subst, ◌∙◌,
  ap,
}
use quantix_cnnector_go.Prelude.Text.{Bytes, codes, eq_bytes}
use quantix_cnnector_go.Value.{
  Value, Items, nil, cons, Fields, end, object, Libs, Result, ok, as_object,
}
use quantix_cnnector_go.Value.Maps.{get?, set, get?-set, set-set}
use quantix_cnnector_go.Driver.{Driver}
use quantix_cnnector_go.Executor.Step.{execute_step}
use quantix_cnnector_go.Executor.Poll.{step_id, poll_loop, result_entry}
use quantix_cnnector_go.Executor.Poll.Frame.{
  is_poll, writes, writes_any, append, loop, context_after, skips, runs, stops, round,
  poll_loop-results,
}

module _ (lib : Libs) {D : Type 0} (drv : Driver D) (canceled shared : Bool) where
  abbrev polled : Items → Fields → Fields → D → Result Fields × D
  polled = loop lib drv canceled shared

  abbrev seen : Fields → Fields → Fields
  seen = context_after lib drv canceled shared

  -- The entry under k is what the last step with the id k gave: it ran on the driver that the steps before
  -- it left, in the context with the results that they left.
  pub record LastRun (steps : Items) (results context : Fields) (d : D) (out : Fields) (k : Bytes)
      : Type 0 where
    pub before : Items
    pub entry : Value
    pub after : Items
    pub step : Fields
    pub result : Value
    pub earlier : Fields
    pub found : D
    pub left : D
    pub split : steps ≡ append before (cons entry after)
    pub parsed : as_object entry ≡ some step
    pub triggered : is_poll lib step ≡ true
    pub named : eq_bytes (step_id lib step) k ≡ true
    pub last : writes_any lib k after ≡ false
    pub leads : polled before results context d ≡ (ok earlier, found)
    pub ran :
        execute_step lib drv canceled found step (seen earlier context) end false
        ≡ (ok result, left)
    pub stored : get? out k ≡ some (result_entry result)

  seen-seen : (a b context : Fields) → seen b (seen a context) ≡ seen b context
  seen-seen a b context = either shared
    where
      either :
          (s : Bool)
          → (if s
              then set
                  (if s then set context (codes "steps") (object a) else context)
                  (codes "steps")
                  (object b)
              else (if s then set context (codes "steps") (object a) else context))
            ≡ (if s then set context (codes "steps") (object b) else context)
      either true = set-set context (codes "steps") (object a) (object b)
      either false = refl

  second : (a b : Bool) → a || b ≡ true → b ≡ false → a ≡ true
  second true b h k = refl
  second false b h k = cc

  -- The same step where one more entry stands in front.
  behind :
      (x : Value) (rest : Items) (results results' context context' : Fields) (d d1 : D)
      (out : Fields) (k : Bytes) (r : LastRun rest results' context' d1 out k)
      → polled (cons x r.before) results context d ≡ (ok r.earlier, r.found)
      → seen r.earlier context' ≡ seen r.earlier context
      → LastRun (cons x rest) results context d out k
  behind x rest results results' context context' d d1 out k r leads same = record {
    before = cons x r.before;
    entry = r.entry;
    after = r.after;
    step = r.step;
    result = r.result;
    earlier = r.earlier;
    found = r.found;
    left = r.left;
    split = ap (cons x) r.split;
    parsed = r.parsed;
    triggered = r.triggered;
    named = r.named;
    last = r.last;
    leads = leads;
    ran =
        subst
          (λ c. execute_step lib drv canceled r.found r.step c end false ≡ (ok r.result, r.left))
          same r.ran;
    stored = r.stored;
  }

  -- After a poll that succeeds the entry of an id that a step of the poll has is what the last such
  -- step gave, run on the driver that the steps before it left and in the context with the results
  -- that they left. The poll starts with a context that has its results under "steps", or does not
  -- share them.
  pub poll_loop-LastRun :
      (steps : Items) (results context : Fields) (d d' : D) (out : Fields) (k : Bytes)
      → seen results context ≡ context
      → poll_loop lib drv canceled shared steps results context d ≡ (ok out, d')
      → writes_any lib k steps ≡ true
      → LastRun steps results context d out k
  unfolding poll_loop
  poll_loop-LastRun nil results context d d' out k start h f = cc
  poll_loop-LastRun (cons x rest) results context d d' out k start h f =
      elim (round lib drv canceled shared x results context d) [
        | skips other w eq ↦
            let r =
              poll_loop-LastRun rest results context d d' out k start (sym (eq rest) ∙ h)
                (rw (w k) at f) in
            behind x rest results results context context d d out k r (eq r.before ∙ r.leads) refl
        | runs step v d1 poll parsed is ran w eq ↦
            let results' : Fields = set results (step_id lib step) (result_entry v) in
            let h' = sym (eq rest results' refl) ∙ h in
            elim (Bool-cases (writes_any lib k rest)) [
              | inl again ↦
                  let r =
                    poll_loop-LastRun rest results' (seen results' context) d1 d' out k
                      (seen-seen results' results' context) h' again in
                  behind x rest results results' context (seen results' context) d d1 out k r
                    (eq r.before results' refl ∙ r.leads) (seen-seen results' r.earlier context)
              | inr last ↦
                  let named : eq_bytes (step_id lib step) k ≡ true =
                    sym (w k) ∙ second (writes lib k x) (writes_any lib k rest) f last in
                  record {
                    before = nil;
                    entry = x;
                    after = rest;
                    step = step;
                    result = v;
                    earlier = results;
                    found = d;
                    left = d1;
                    split = refl;
                    parsed = parsed;
                    triggered = is;
                    named = named;
                    last = last;
                    leads = refl;
                    ran =
                        subst (λ c. execute_step lib drv canceled d step c end false ≡ (ok v, d1))
                          (sym start) ran;
                    stored =
                        (poll_loop-results lib drv canceled shared rest results'
                            (seen results' context) d1 d' out k h').0
                          last
                        ∙ get?-set results (step_id lib step) k (result_entry v)
                        ∙ rw named refl;
                  }
            ]
        | stops r d1 poll bad eq ↦
            absurd (bad out (ap (λ (p : Result Fields × D). p.0) (sym (eq rest) ∙ h)))
      ]
