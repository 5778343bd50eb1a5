-- ===== src/Executor/Context/Flow.antt =====
-- How data flows between steps: a placeholder that stands alone is replaced by the value itself, with
-- its type, found by walking the path through the context.
use quantix_cnnector_go.Prelude.{ℕ, ◌≡◌, refl, ap, ◌∙◌, List, [], ◌∷◌, ◌++◌, arith}
use quantix_cnnector_go.Prelude.Text.{Bytes, codes, eq_bytes_refl, join}
use quantix_cnnector_go.Value.{Value, string, object, Fields, end, field, Libs}
use quantix_cnnector_go.Value.Maps.{get, set, get-set_self}
use quantix_cnnector_go.Executor.Context.{placeholder, walk, get_from_context, resolve_value}
use quantix_cnnector_go.Executor.Context.Scan.{
  Lacks, AllLack, Lacks-append, placeholders-placeholder, trim-placeholder, split-join,
}

get-field_self : (k : Bytes) (v : Value) → get (field k v end) k ≡ v
unfolding get
get-field_self k v = ground (arith, eq_bytes_refl k)

walk-found :
    (m : Fields) (part : Bytes) (parts : List Bytes) {v : Value}
    → get m part ≡ v
    → walk (object m) (part ∷ parts) ≡ walk v parts
unfolding walk
walk-found m part parts h = ap (λ (u : Value). walk u parts) h

module _ (lib : Libs) where
  resolve-placeholder :
      (x : ℕ) (w : Bytes) (context : Fields)
      → Lacks b'}' (x ∷ w)
      → resolve_value lib (string (placeholder (x ∷ w))) context ≡ get_from_context (x ∷ w) context
  unfolding resolve_value
  resolve-placeholder x w context h = rw (
    placeholders-placeholder x w h,
    trim-placeholder (x ∷ w),
    eq_bytes_refl (placeholder (x ∷ w)),
  )

  join-Lacks :
      (w : Bytes) (ws : List Bytes) → AllLack b'}' (w ∷ ws) → Lacks b'}' (join b'.' (w ∷ ws))
  unfolding join
  join-Lacks w [] h = h.0
  join-Lacks w (v ∷ ws) h = Lacks-append b'}' w _ h.0 (refl, join-Lacks v ws h.1)

  -- A text that is one placeholder, its path made of parts without dots and closing braces and the
  -- first part not empty, resolves to what the walk along those parts finds in the context, whatever
  -- its type: it is not turned into a text.
  pub resolve-path :
      (x : ℕ) (w : Bytes) (ws : List Bytes) (context : Fields)
      → AllLack b'.' ((x ∷ w) ∷ ws)
      → AllLack b'}' ((x ∷ w) ∷ ws)
      → resolve_value lib (string (placeholder (join b'.' ((x ∷ w) ∷ ws)))) context
        ≡ walk (object context) ((x ∷ w) ∷ ws)
  unfolding get_from_context join
  resolve-path x w [] context d b =
      resolve-placeholder x w context b.0 ∙ ap (walk (object context)) (split-join (x ∷ w) [] d)
  resolve-path x w (v ∷ ws) context d b =
      resolve-placeholder x (w ++ b'.' ∷ join b'.' (v ∷ ws)) context (join-Lacks (x ∷ w) (v ∷ ws) b)
      ∙ ap (walk (object context)) (split-join (x ∷ w) (v ∷ ws) d)

  abbrev pub step_path : Bytes → Bytes
  step_path id = join b'.' (codes "steps" ∷ id ∷ codes "result" ∷ [])

  -- Once a step has stored its result under its id, `${steps.<id>.result}` in a later step's parameters
  -- is that result, unchanged, for every id without a dot or a closing brace.
  pub resolve-step_result :
      (id : Bytes) (result : Value) (steps context : Fields)
      → Lacks b'.' id
      → Lacks b'}' id
      → resolve_value lib (string (placeholder (step_path id))) (
          set context
            (codes "steps")
            (object (set steps id (object (field (codes "result") result end)))))
        ≡ result
  unfolding walk
  resolve-step_result id result steps context d b =
      let entry : Fields = field (codes "result") result end in
      resolve-path b's' (codes "teps") (id ∷ codes "result" ∷ []) _
        (
          (refl, (refl, (refl, (refl, (refl, tt))))),
          (d, ((refl, (refl, (refl, (refl, (refl, (refl, tt)))))), tt)),
        )
        (
          (refl, (refl, (refl, (refl, (refl, tt))))),
          (b, ((refl, (refl, (refl, (refl, (refl, (refl, tt)))))), tt)),
        )
      ∙ walk-found _ _ (id ∷ codes "result" ∷ [])
          (get-set_self context (codes "steps") (object (set steps id (object entry))))
      ∙ walk-found _ _ (codes "result" ∷ []) (get-set_self steps id (object entry))
      ∙ walk-found _ _ [] (get-field_self (codes "result") result)
