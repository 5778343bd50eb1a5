-- ===== src/Api/Protocols/Kept.antt =====
-- Templates that requests cannot touch (updateProtocol, deleteProtocol).
use quantix_cnnector_go.Prelude.{
  ℕ, ◌<◌, ◌≡◌, ◌≢◌, refl, sym, ◌∙◌, subst, true, false, Bool-cases, Option, none, some,
  Option-cases, List, [], ◌∷◌, ltb, lt→ltb, ◌⊎◌, inl, inr,
}
use quantix_cnnector_go.Prelude.Text.{Bytes}
use quantix_cnnector_go.Value.{Error}
use quantix_cnnector_go.Api.{Response}
use quantix_cnnector_go.Api.Protocols.{
  Template, Db, counted, TemplateCreate, TemplateUpdate, Request, list_all, creates, imports, gets,
  exports, updates, deletes, row_of, changed, stored, imported, with_row, saved, updated,
  update_row, delete_row, id_of, create_protocol, import_protocol, get_protocol, update_protocol,
  delete_protocol, export_protocol, serve, serve_all,
}

-- How gorm treats the rows that a call is not about; what a count gives does not change with them.
pub record IsStore {S : Type 0} (db : Db S) : Type 0 where
  pub names : (s : S) (i : ℕ) (row : Template) → db.first s i ≡ some row → row.id ≡ i
  pub creates_apart :
      (s : S) (new : Template) (i : ℕ) (row : Template)
      → db.first s i ≡ some row
      → db.first (db.create s new).1 i ≡ some row
  pub saves_apart :
      (s : S) (new : Template) (i : ℕ) → new.id ≢ i → db.first (db.save s new).1 i ≡ db.first s i
  pub deletes_apart : (s : S) (j i : ℕ) → j ≢ i → db.first (db.delete s j) i ≡ db.first s i
  pub creates_users :
      (s : S) (new : Template) (i : ℕ)
      → db.devices_using (db.create s new).1 i ≡ db.devices_using s i
  pub saves_users :
      (s : S) (new : Template) (i : ℕ) → db.devices_using (db.save s new).1 i ≡ db.devices_using s i
  pub deletes_users :
      (s : S) (j i : ℕ) → j ≢ i → db.devices_using (db.delete s j) i ≡ db.devices_using s i

module _ {S : Type 0} (db : Db S) (parse_uint : Bytes → Option ℕ) (law : IsStore db) where
  -- Template i is this row, and counting the devices that use it works and finds some.
  pub record IsUsed (i : ℕ) (row : Template) (s : S) : Type 0 where
    pub there : db.first s i ≡ some row
    pub used : 0 < counted (db.devices_using s i)

  stored-IsUsed :
      (i : ℕ) (row : Template) (r : (Error ⊎ Template) × S)
      → IsUsed i row r.1
      → IsUsed i row (stored db parse_uint r).1
  stored-IsUsed i row (inl e, s) u = u
  stored-IsUsed i row (inr new, s) u = u

  saved-IsUsed :
      (i : ℕ) (row : Template) (r : (Error ⊎ Template) × S)
      → IsUsed i row r.1
      → IsUsed i row (saved db parse_uint r).1
  saved-IsUsed i row (inl e, s) u = u
  saved-IsUsed i row (inr new, s) u = u

  create-IsUsed :
      (i : ℕ) (row : Template) (s : S) (new : Template)
      → IsUsed i row s
      → IsUsed i row (db.create s new).1
  create-IsUsed i row s new u = record {
    there = law.creates_apart s new i row u.there;
    used = subst (λ n. 0 < counted n) (sym (law.creates_users s new i)) u.used;
  }

  imported-IsUsed :
      (i : ℕ) (row : Template) (s : S) (req : TemplateCreate) (found : Option Template)
      → IsUsed i row s
      → IsUsed i row (imported db parse_uint s req found).1
  imported-IsUsed i row s req none u =
      stored-IsUsed i row (db.create s (row_of req)) (create-IsUsed i row s (row_of req) u)
  imported-IsUsed i row s req (some old) u = u

  -- A handler on a row that is there.
  with_row-IsUsed :
      (i : ℕ) (row : Template) (s : S) (id : Option ℕ) (act : ℕ → Template → Response × S)
      → ((j : ℕ) (r : Template) → db.first s j ≡ some r → IsUsed i row (act j r).1)
      → IsUsed i row s
      → IsUsed i row (with_row db parse_uint s id act).1
  with_row-IsUsed i row s none act h u = u
  with_row-IsUsed i row s (some j) act h u = elim (Option-cases (db.first s j)) [
    | inl e ↦ rw (e, with_row) u
    | inr (r, e) ↦ rw (e, with_row) (h j r e)
  ]

  changed-id : (r : Template) (req : TemplateUpdate) → (changed r req).id ≡ r.id
  unfolding changed
  changed-id r req = refl

  updated-IsUsed :
      (i : ℕ) (row : Template) (s : S) (r : Template) (body : Error ⊎ TemplateUpdate)
      → r.id ≢ i
      → IsUsed i row s
      → IsUsed i row (updated db parse_uint s r body).1
  updated-IsUsed i row s r (inl e) h u = u
  updated-IsUsed i row s r (inr req) h u = saved-IsUsed i row (db.save s (changed r req)) (record {
    there = law.saves_apart s (changed r req) i (λ p. h (sym (changed-id r req) ∙ p)) ∙ u.there;
    used = subst (λ n. 0 < counted n) (sym (law.saves_users s (changed r req) i)) u.used;
  })

  -- The guard of the handlers: the id of a template that is used goes no further.
  not_used :
      (i j : ℕ) (row : Template) (s : S)
      → IsUsed i row s
      → ltb 0 (counted (db.devices_using s j)) ≡ false
      → j ≢ i
  not_used i j row s u e p =
      let hit : ltb 0 (counted (db.devices_using s j)) ≡ true =
        subst (λ k. ltb 0 (counted (db.devices_using s k)) ≡ true) (sym p)
          (lt→ltb 0 (counted (db.devices_using s i)) u.used) in
      distinct (sym hit ∙ e)
    where
      distinct : true ≡ false → ⊥
      distinct q = cc

  update_row-IsUsed :
      (i : ℕ) (row : Template) (s : S) (body : Error ⊎ TemplateUpdate) (j : ℕ) (r : Template)
      → IsUsed i row s
      → db.first s j ≡ some r
      → IsUsed i row (update_row db parse_uint s body j r).1
  update_row-IsUsed i row s body j r u e =
      elim (Bool-cases (ltb 0 (counted (db.devices_using s j)))) [
        | inl used ↦ rw used u
        | inr free ↦ rw free (
            updated-IsUsed i row s r body
              (λ p. not_used i j row s u free (sym (law.names s j r e) ∙ p)) u)
      ]

  delete_row-IsUsed :
      (i : ℕ) (row : Template) (s : S) (j : ℕ) (r : Template)
      → IsUsed i row s
      → IsUsed i row (delete_row db parse_uint s j r).1
  delete_row-IsUsed i row s j r u = elim (Bool-cases (ltb 0 (counted (db.devices_using s j)))) [
    | inl used ↦ rw used u
    | inr free ↦ elim (Bool-cases r.is_system) [
      | inl system ↦ rw (free, system) u
      | inr own ↦
          let other : j ≢ i = not_used i j row s u free in
          rw (free, own)
            (record {
              there = law.deletes_apart s j i other ∙ u.there;
              used = subst (λ n. 0 < counted n) (sym (law.deletes_users s j i other)) u.used;
            })
    ]
  ]

  serve-IsUsed :
      (i : ℕ) (row : Template) (s : S) (request : Request)
      → IsUsed i row s
      → IsUsed i row (serve db parse_uint s request).1
  unfolding serve create_protocol import_protocol get_protocol update_protocol delete_protocol
      export_protocol
  serve-IsUsed i row s list_all u = u
  serve-IsUsed i row s (creates (inl e)) u = u
  serve-IsUsed i row s (creates (inr req)) u =
      stored-IsUsed i row (db.create s (row_of req)) (create-IsUsed i row s (row_of req) u)
  serve-IsUsed i row s (imports (inl e)) u = u
  serve-IsUsed i row s (imports (inr req)) u = imported-IsUsed i row s req (db.by_name s req.name) u
  serve-IsUsed i row s (gets param) u =
      with_row-IsUsed i row s (id_of db parse_uint param) _ (λ j r e. u) u
  serve-IsUsed i row s (exports param) u =
      with_row-IsUsed i row s (id_of db parse_uint param) _ (λ j r e. u) u
  serve-IsUsed i row s (updates param body) u =
      with_row-IsUsed i row s (id_of db parse_uint param) (update_row db parse_uint s body)
        (λ j r e. update_row-IsUsed i row s body j r u e) u
  serve-IsUsed i row s (deletes param) u =
      with_row-IsUsed i row s (id_of db parse_uint param) (delete_row db parse_uint s)
        (λ j r e. delete_row-IsUsed i row s j r u) u

  -- A template that devices use stays as it is, and stays used, whatever requests for templates are
  -- served, in any order. The database changes no other rows than those it is told to, a change
  -- of templates does not change devices, and counting devices does not begin to fail: the handlers
  -- take a count that fails for 0.
  pub serve_all-IsUsed :
      (i : ℕ) (row : Template) (s : S) (requests : List Request)
      → IsUsed i row s
      → IsUsed i row (serve_all db parse_uint s requests)
  serve_all-IsUsed i row s [] u = u
  serve_all-IsUsed i row s (r ∷ requests) u =
      serve_all-IsUsed i row (serve db parse_uint s r).1 requests (serve-IsUsed i row s r u)
