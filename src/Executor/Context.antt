-- ===== src/Executor/Context.antt =====
-- internal/service/protocol_executor.go: placeholders `${path}` and the context map (placeholderRe,
-- resolveValue, getFromContext).
pub mod Scan
pub mod Flow
pub mod Plain
use quantix_cnnector_go.Prelude.{
  ℕ, suc, zero, ◌+◌, ◌==◌, if◌then◌else◌, Bool, true, false, ◌&&◌, Option, none, some, List, [],
  ◌∷◌, ◌++◌, length,
}
use quantix_cnnector_go.Prelude.Text.{Bytes, codes, eq_bytes, trim_space, replace_all, split}
use quantix_cnnector_go.Value.{
  Value, null, bool, int, int32, int64, uint, uint32, uint64, float32, float64, number, string,
  bytes, ints, bools, items, object, Items, nil, cons, Fields, end, field, Libs,
}
use quantix_cnnector_go.Value.Maps.{get}
use quantix_cnnector_go.Value.Sprint.{sprint}

-- The characters up to the next `}`, if there is one.
unfoldable pub up_to_brace : Bytes → Option Bytes
up_to_brace [] = none
up_to_brace (x ∷ xs) =
    let rest = up_to_brace xs in
    if x == b'}' then some [] else elim rest [ none ↦ none | some w ↦ some (x ∷ w) ]

abbrev non_empty : Option Bytes → Option Bytes
non_empty none = none
non_empty (some []) = none
non_empty (some (x ∷ w)) = some (x ∷ w)

-- The group of a match of `\$\{([^}]+)\}` at the start of the text.
unfoldable pub placeholder_at : Bytes → Option Bytes
unfolding up_to_brace
placeholder_at [] = none
placeholder_at (x ∷ []) = none
placeholder_at (x ∷ y ∷ rest) =
    if x == b'$' && y == b'{' then non_empty (up_to_brace rest) else none

-- placeholderRe.FindAllStringSubmatch: the groups of the matches from the left, without overlap;
-- `skip` characters of a match are still to pass.
unfoldable pub placeholders_from : ℕ → Bytes → List Bytes
placeholders_from skip [] = []
placeholders_from (suc k) (x ∷ xs) = placeholders_from k xs
placeholders_from zero (x ∷ xs) = elim (placeholder_at (x ∷ xs)) [
  | none ↦ placeholders_from zero xs
  | some w ↦ w ∷ placeholders_from (length w + 2) xs
]

unfoldable pub placeholders : Bytes → List Bytes
unfolding placeholders_from
placeholders = placeholders_from zero

abbrev pub placeholder : Bytes → Bytes
placeholder w = b'$' ∷ b'{' ∷ w ++ b'}' ∷ []

unfoldable pub walk : Value → List Bytes → Value
walk v [] = v
walk (object m) (part ∷ parts) = walk (get m part) parts
walk _ (part ∷ parts) = null

unfoldable pub get_from_context : Bytes → Fields → Value
unfolding walk
get_from_context path context = walk (object context) (split b'.' path)

module _ (lib : Libs) where
  -- nil is replaced by nothing.
  abbrev replacement : Value → Bytes
  replacement null = []
  replacement v = sprint lib v

  unfoldable pub replace_placeholders : Fields → List Bytes → Bytes → Bytes
  replace_placeholders context [] out = out
  replace_placeholders context (path ∷ paths) out =
      replace_placeholders context paths
        (replace_all out (placeholder path) (replacement (get_from_context path context)))

  abbrev resolve_matches : Fields → Bytes → List Bytes → Value
  resolve_matches context t [] = string t
  resolve_matches context t (w ∷ []) =
      if eq_bytes (trim_space t) (placeholder w)
      then get_from_context w context
      else string (replace_placeholders context (w ∷ []) t)
  resolve_matches context t (w ∷ v ∷ ws) = string (replace_placeholders context (w ∷ v ∷ ws) t)

  unfoldable mutual
    unfolding replace_placeholders

    pub resolve_value : Value → Fields → Value
    resolve_value (object m) context = object (resolve_fields m context)
    resolve_value (items xs) context = items (resolve_items xs context)
    resolve_value (string t) context = resolve_matches context t (placeholders t)
    resolve_value v context = v

    pub resolve_items : Items → Fields → Items
    resolve_items nil context = nil
    resolve_items (cons x xs) context = cons (resolve_value x context) (resolve_items xs context)

    pub resolve_fields : Fields → Fields → Fields
    resolve_fields end context = end
    resolve_fields (field k v m) context =
        field k (resolve_value v context) (resolve_fields m context)
