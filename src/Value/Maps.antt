-- ===== src/Value/Maps.antt =====
-- `map[string]any`: reading, writing, copying.
use quantix_cnnector_go.Prelude.{
  ◌≡◌, refl, ap, false, Bool-cases, inl, inr, Option, none, some, arith, if◌then◌else◌,
}
use quantix_cnnector_go.Prelude.Text.{Bytes, eq_bytes, eq_bytes_iff, eq_bytes_refl}
use quantix_cnnector_go.Value.{Value, null, Fields, end, field}

-- m[key], with the comma-ok form
unfoldable pub get? : Fields → Bytes → Option Value
get? end k = none
get? (field j v m) k = if eq_bytes j k then some v else get? m k

abbrev pub or_nil : Option Value → Value
or_nil none = null
or_nil (some v) = v

-- m[key]: a missing key reads as nil
unfoldable pub get : Fields → Bytes → Value
unfolding get?
get m k = or_nil (get? m k)

-- m[key] = v
unfoldable pub set : Fields → Bytes → Value → Fields
set end k v = field k v end
set (field j w m) k v = if eq_bytes j k then field k v m else field j w (set m k v)

-- for k, v := range src { dst[k] = v }
unfoldable pub merge : Fields → Fields → Fields
unfolding set
merge dst end = dst
merge dst (field k v src) = merge (set dst k v) src

-- copyMapExec, cloneMap, cloneBusMessage
unfoldable pub clone : Fields → Fields
unfolding merge
clone m = merge end m

pub get?-set :
    (m : Fields) (k j : Bytes) (v : Value)
    → get? (set m k v) j ≡ (if eq_bytes k j then some v else get? m j)
unfolding get? set
get?-set end k j v = refl
get?-set (field i w m) k j v =
    ground (arith, eq_bytes_iff k j, eq_bytes_iff i k, eq_bytes_iff i j, get?-set m k j v)

pub set-set : (m : Fields) (k : Bytes) (v w : Value) → set (set m k v) k w ≡ set m k w
unfolding set
set-set end k v w = rw (eq_bytes_refl k) refl
set-set (field j u m) k v w = elim (Bool-cases (eq_bytes j k)) [
  | inl e ↦ rw (e, eq_bytes_refl k) refl
  | inr e ↦ rw e (rw e (ap (field j u) (set-set m k v w)))
]

pub get-set :
    (m : Fields) (k j : Bytes) (v : Value)
    → get (set m k v) j ≡ (if eq_bytes k j then v else get m j)
unfolding get
get-set m k j v = ground (arith, get?-set m k j v)

pub get-set_self : (m : Fields) (k : Bytes) (v : Value) → get (set m k v) k ≡ v
get-set_self m k v = ground (arith, get-set m k k v, eq_bytes_refl k)

pub get-set_ne :
    (m : Fields) (k j : Bytes) (v : Value) → eq_bytes k j ≡ false → get (set m k v) j ≡ get m j
get-set_ne m k j v h = ground (arith, get-set m k j v)

-- A key occurs at most once, as in a Go map.
abbrev pub Absent : Bytes → Fields → Type 0
Absent k end = Unit {0}
Absent k (field j v m) = (eq_bytes j k ≡ false) × Absent k m

abbrev pub IsMap : Fields → Type 0
IsMap end = Unit {0}
IsMap (field k v m) = Absent k m × IsMap m

pub get?-Absent : (k : Bytes) (m : Fields) → Absent k m → get? m k ≡ none
unfolding get?
get?-Absent k end h = refl
get?-Absent k (field j v m) h = ground (arith, get?-Absent k m h.1)

abbrev pub override : Option Value → Option Value → Option Value
override none old = old
override (some v) old = some v

-- A merge reads as the source where that has the key, and as the destination elsewhere.
pub get?-merge :
    (dst src : Fields) (k : Bytes)
    → IsMap src
    → get? (merge dst src) k ≡ override (get? src k) (get? dst k)
unfolding merge get?
get?-merge dst end k h = refl
get?-merge dst (field j v src) k h = ground (
  arith,
  get?-merge (set dst j v) src k h.1,
  get?-set dst j k v,
  get?-Absent k src,
  eq_bytes_iff j k,
)

pub get?-clone : (m : Fields) (k : Bytes) → IsMap m → get? (clone m) k ≡ get? m k
unfolding clone get?
get?-clone m k h = ground (arith, get?-merge end m k h)

pub get-clone : (m : Fields) (k : Bytes) → IsMap m → get (clone m) k ≡ get m k
unfolding get
get-clone m k h = ground (arith, get?-clone m k h)
