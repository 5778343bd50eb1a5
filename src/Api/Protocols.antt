-- ===== src/Api/Protocols.antt =====
-- internal/api/protocols.go: the templates of protocols (list, create, import, get, update, delete, export), over a
-- database with states S.
pub mod Kept
use quantix_cnnector_go.Prelude.{
  ℕ, zero, suc, Bool, true, false, ◌<◌, Option, none, some, List, [], ◌∷◌, ltb, if◌then◌else◌, ◌⊎◌,
  inl, inr,
}
use quantix_cnnector_go.Prelude.Text.{Bytes, codes, trim_space}
use quantix_cnnector_go.Value.{
  Value, bool, uint, string, object, items, Items, nil, cons, Fields, end, field, Error,
}
use quantix_cnnector_go.Value.Maps.{clone}
use quantix_cnnector_go.Api.{Response, detail, answer, invalid_id}

pub record Template : Type 0 where
  pub id : ℕ
  pub name : Bytes
  pub description : Bytes
  pub protocol_type : Bytes
  pub template : Fields
  pub is_system : Bool
  pub created_at : Bytes
  pub updated_at : Bytes

-- The calls of gorm: the rows by id, the row with an id and with a name, the number of devices that use a
-- template, which may fail, and the changes, with the row as it is stored.
pub record Db (S : Type 0) : Type 0 where
  pub find : S → Error ⊎ List Template
  pub first : S → ℕ → Option Template
  pub by_name : S → Bytes → Option Template
  pub devices_using : S → ℕ → Error ⊎ ℕ
  pub create : S → Template → (Error ⊎ Template) × S
  pub save : S → Template → (Error ⊎ Template) × S
  pub delete : S → ℕ → S

pub record TemplateCreate : Type 0 where
  pub name : Bytes
  pub description : Bytes
  pub protocol_type : Bytes
  pub template : Fields
  pub is_system : Bool

pub record TemplateUpdate : Type 0 where
  pub name : Option Bytes
  pub description : Option Bytes
  pub protocol_type : Option Bytes
  pub template : Option Fields

unfoldable pub protocol_to_map : Template → Fields
protocol_to_map p = field (codes "id") (uint p.id) (
    field (codes "name") (string p.name) (
      field (codes "description") (string p.description) (
        field (codes "protocol_type") (string p.protocol_type) (
          field (codes "template") (object (clone p.template)) (
            field (codes "is_system") (bool p.is_system) (
              field (codes "created_at") (string p.created_at)
                (field (codes "updated_at") (string p.updated_at) end)))))))

abbrev rows_to_items : List Template → Items
rows_to_items [] = nil
rows_to_items (r ∷ rows) = cons (object (protocol_to_map r)) (rows_to_items rows)

abbrev pub or_old {ℓ} : {A : Type ℓ} → Option A → A → A
or_old none old = old
or_old (some new) old = new

-- inUse, which stays 0 where Count fails: the error is ignored.
abbrev pub counted : Error ⊎ ℕ → ℕ
counted (inl e) = 0
counted (inr n) = n

abbrev name_taken : Response
name_taken = detail 409 (codes "Protocol name already exists")

abbrev pub not_found : Response
not_found = detail 404 (codes "Protocol not found")

abbrev in_use : Response
in_use =
    detail 409 (
      codes "Protocol template is referenced by existing devices and cannot be modified or deleted")

-- The row of a request; its id and times are set by the database.
unfoldable pub row_of : TemplateCreate → Template
row_of req = record {
  id = 0;
  name = req.name;
  description = req.description;
  protocol_type = req.protocol_type;
  template = clone req.template;
  is_system = req.is_system;
  created_at = [];
  updated_at = [];
}

unfoldable pub changed : Template → TemplateUpdate → Template
changed row req = record row {
  name = or_old req.name row.name;
  description = or_old req.description row.description;
  protocol_type = or_old req.protocol_type row.protocol_type;
  template = elim req.template [ none ↦ row.template | some t ↦ clone t ];
}

-- strconv.ParseUint(raw, 10, 64)
module _ {S : Type 0} (db : Db S) (parse_uint : Bytes → Option ℕ) where
  abbrev pub id_of : Bytes → Option ℕ
  id_of param = parse_uint (trim_space param)

  abbrev listed : Error ⊎ List Template → Response
  listed (inl e) = detail 500 e.text
  listed (inr rows) = record { status = 200; body = items (rows_to_items rows) }

  unfoldable pub list_protocols : S → Response
  list_protocols s = listed (db.find s)

  abbrev pub stored : (Error ⊎ Template) × S → Response × S
  stored (inl e, s) = (name_taken, s)
  stored (inr row, s) = (answer (protocol_to_map row), s)

  unfoldable pub create_protocol : S → Error ⊎ TemplateCreate → Response × S
  unfolding protocol_to_map
  create_protocol s (inl e) = (detail 400 e.text, s)
  create_protocol s (inr req) = stored (db.create s (row_of req))

  abbrev pub imported : S → TemplateCreate → Option Template → Response × S
  imported s req (some row) = (name_taken, s)
  imported s req none = stored (db.create s (row_of req))

  unfoldable pub import_protocol : S → Error ⊎ TemplateCreate → Response × S
  unfolding protocol_to_map
  import_protocol s (inl e) = (detail 400 e.text, s)
  import_protocol s (inr req) = imported s req (db.by_name s req.name)

  -- What the handlers do with the row of an id.
  abbrev pub with_row : S → Option ℕ → (ℕ → Template → Response × S) → Response × S
  with_row s none act = (invalid_id, s)
  with_row s (some id) act = elim (db.first s id) [ none ↦ (not_found, s) | some row ↦ act id row ]

  unfoldable pub get_protocol : S → Bytes → Response × S
  unfolding protocol_to_map
  get_protocol s param =
      with_row s (id_of param) (λ (id : ℕ). λ (row : Template). (answer (protocol_to_map row), s))

  abbrev pub saved : (Error ⊎ Template) × S → Response × S
  saved (inl e, s) = (detail 409 e.text, s)
  saved (inr row, s) = (answer (protocol_to_map row), s)

  abbrev pub updated : S → Template → Error ⊎ TemplateUpdate → Response × S
  updated s row (inl e) = (detail 400 e.text, s)
  updated s row (inr req) = saved (db.save s (changed row req))

  abbrev pub update_row : S → Error ⊎ TemplateUpdate → ℕ → Template → Response × S
  update_row s body id row =
      if ltb 0 (counted (db.devices_using s id)) then (in_use, s) else updated s row body

  unfoldable pub update_protocol : S → Bytes → Error ⊎ TemplateUpdate → Response × S
  unfolding protocol_to_map
  update_protocol s param body = with_row s (id_of param) (update_row s body)

  abbrev pub delete_row : S → ℕ → Template → Response × S
  delete_row s id row =
      if ltb 0 (counted (db.devices_using s id))
      then (in_use, s)
      else if row.is_system
      then (detail 403 (codes "System protocol can not be deleted"), s)
      else (answer (field (codes "ok") (bool true) end), db.delete s id)

  unfoldable pub delete_protocol : S → Bytes → Response × S
  delete_protocol s param = with_row s (id_of param) (delete_row s)

  unfoldable pub export_protocol : S → Bytes → Response × S
  export_protocol s param = with_row s (id_of param) (λ (id : ℕ). λ (row : Template). (
    answer (
        field (codes "name") (string row.name) (
          field (codes "description") (string row.description) (
            field (codes "protocol_type") (string row.protocol_type)
              (field (codes "template") (object (clone row.template)) end)))),
    s,
  ))

-- A request to one of the handlers.
pub data Request : Type 0 where
  list_all : Request
  creates imports : Error ⊎ TemplateCreate → Request
  gets exports deletes : Bytes → Request
  updates : Bytes → Error ⊎ TemplateUpdate → Request

module _ {S : Type 0} (db : Db S) (parse_uint : Bytes → Option ℕ) where
  unfoldable pub serve : S → Request → Response × S
  unfolding create_protocol import_protocol get_protocol update_protocol delete_protocol
      export_protocol list_protocols
  serve s list_all = (list_protocols db parse_uint s, s)
  serve s (creates body) = create_protocol db parse_uint s body
  serve s (imports body) = import_protocol db parse_uint s body
  serve s (gets param) = get_protocol db parse_uint s param
  serve s (exports param) = export_protocol db parse_uint s param
  serve s (updates param body) = update_protocol db parse_uint s param body
  serve s (deletes param) = delete_protocol db parse_uint s param

  -- The state after a list of requests.
  abbrev pub serve_all : S → List Request → S
  serve_all s [] = s
  serve_all s (r ∷ requests) = serve_all (serve s r).1 requests
