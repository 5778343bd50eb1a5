-- ===== src/Value/Sprint.antt =====
-- `fmt.Sprintf("%v", v)` of a value. Go prints a map by its keys in order.
use quantix_cnnector_go.Prelude.{
  Bool, true, false, none, some, ◌&&◌, ◌||◌, List, [], ◌∷◌, ◌++◌, ltb, ◌==◌, if◌then◌else◌,
}
use quantix_cnnector_go.Prelude.Text.{Bytes, codes, decimal, show_int}
use quantix_cnnector_go.Value.{
  Value, null, bool, int, int32, int64, uint, uint32, uint64, float32, float64, float_ptr, number,
  string, bytes, ints, bools, items, object, Items, nil, cons, Fields, end, field, Libs,
}

-- Byte order on texts, and insertion by key.
lt_bytes : Bytes → Bytes → Bool
lt_bytes xs [] = false
lt_bytes [] (y ∷ ys) = true
lt_bytes (x ∷ xs) (y ∷ ys) = ltb x y || (x == y && lt_bytes xs ys)

insert_entry : Bytes → Bytes → List (Bytes × Bytes) → List (Bytes × Bytes)
unfolding lt_bytes
insert_entry k v [] = (k, v) ∷ []
insert_entry k v ((j, w) ∷ es) =
    if lt_bytes k j then (k, v) ∷ (j, w) ∷ es else (j, w) ∷ insert_entry k v es

show_entries : List (Bytes × Bytes) → Bytes
show_entries [] = []
show_entries ((k, v) ∷ []) = k ++ b':' ∷ v
show_entries ((k, v) ∷ e ∷ es) = k ++ b':' ∷ v ++ 32 ∷ show_entries (e ∷ es)

show_words : List Bytes → Bytes
show_words [] = []
show_words (w ∷ []) = w
show_words (w ∷ v ∷ ws) = w ++ 32 ∷ show_words (v ∷ ws)

abbrev bracket : Bytes → Bytes
bracket s = b'[' ∷ s ++ b']' ∷ []

abbrev show_bool : Bool → Bytes
show_bool true = codes "true"
show_bool false = codes "false"

abbrev each {ℓ} : {A : Type ℓ} → (A → Bytes) → List A → List Bytes
each f [] = []
each f (x ∷ xs) = f x ∷ each f xs

module _ (lib : Libs) where
  unfoldable mutual
    unfolding show_int decimal insert_entry show_entries show_words

    pub sprint : Value → Bytes
    sprint null = codes "<nil>"
    sprint (bool b) = show_bool b
    sprint (int n) = show_int n
    sprint (int32 n) = show_int n
    sprint (int64 n) = show_int n
    sprint (uint n) = decimal n
    sprint (uint32 n) = decimal n
    sprint (uint64 n) = decimal n
    sprint (float32 f) = lib.show_float32 f
    sprint (float64 f) = lib.show_float f
    sprint (float_ptr none) = codes "<nil>"
    sprint (float_ptr (some f)) = lib.show_pointer f
    sprint (number s) = s
    sprint (string s) = s
    sprint (bytes s) = bracket (show_words (each decimal s))
    sprint (ints ns) = bracket (show_words (each show_int ns))
    sprint (bools bs) = bracket (show_words (each show_bool bs))
    sprint (items xs) = bracket (show_words (sprint_items xs))
    sprint (object m) = codes "map" ++ bracket (show_entries (sprint_fields m))

    pub sprint_items : Items → List Bytes
    sprint_items nil = []
    sprint_items (cons x xs) = sprint x ∷ sprint_items xs

    pub sprint_fields : Fields → List (Bytes × Bytes)
    sprint_fields end = []
    sprint_fields (field k v m) = insert_entry k (sprint v) (sprint_fields m)
