-- ===== src/Executor/Struct/Layout.antt =====
-- A whole record of integers, field after field (the loop of parseStructResult).
use quantix_cnnector_go.Prelude.{
  ℕ, ◌+◌, ◌^◌, ◌≤◌, ◌<◌, ◌≡◌, refl, ◌∙◌, false, List, [], ◌∷◌, ◌++◌, append_assoc, length,
  length-append, arith, le→not_ltb,
}
use quantix_cnnector_go.Prelude.Int.{pos}
use quantix_cnnector_go.Prelude.Text.{Bytes, codes, eq_bytes, trim_space, to_lower}
use quantix_cnnector_go.Value.{
  Value, int, string, Items, nil, cons, Fields, end, field, object, Libs, ok, value_or, as_object,
}
use quantix_cnnector_go.Value.Maps.{get, set}
use quantix_cnnector_go.Value.Sprint.{sprint}
use quantix_cnnector_go.Executor.Convert.{int_or}
use quantix_cnnector_go.Executor.Struct.{
  parse_kind, kind_of, parse_at, parse_fields, field_name, field_offset, apply_struct_scale,
}
use quantix_cnnector_go.Executor.Struct.Roundtrip.{
  Width, one, two, four, size, limit, encode, unsigned_kind, integer, length-within, length-encode,
  parse-unsigned,
}

pub record Entry : Type 0 where
  pub name : Bytes
  pub width : Width
  pub value : ℕ

abbrev pub type_text : Width → Bytes
type_text one = codes "u8"
type_text two = codes "u16"
type_text four = codes "u32"

-- The field as a template states it: a name and a type, and nothing else.
abbrev pub stated : Entry → Fields
stated e =
    field (codes "name") (string e.name) (field (codes "type") (string (type_text e.width)) end)

abbrev pub layout : List Entry → Items
layout [] = nil
layout (e ∷ es) = cons (object (stated e)) (layout es)

abbrev pub written : List Entry → Bytes
written [] = []
written (e ∷ es) = encode e.width false e.value ++ written es

abbrev pub recorded : Fields → List Entry → Fields
recorded result [] = result
recorded result (e ∷ es) = recorded (set result e.name (integer e.width (pos e.value))) es

-- Names that are trimmed and not empty, and values that fit.
abbrev pub AllFit : List Entry → Type 0
AllFit [] = Unit {0}
AllFit (e ∷ es) =
    (trim_space e.name ≡ e.name)
    × (eq_bytes e.name [] ≡ false)
    × (e.value < limit e.width)
    × AllFit es

-- Whole numbers below 2^53 survive the trip through a float64.
abbrev pub IsExact : Libs → Type 0
IsExact lib = (n : ℕ) → n < 2 ^ 53 → lib.int_of_float (lib.float_of_int (pos n)) ≡ pos n

module _ (lib : Libs) where
  stated-name : (e : Entry) → trim_space e.name ≡ e.name → field_name lib (stated e) ≡ e.name
  unfolding field_name get eq_bytes sprint
  stated-name e h = h

  stated-offset :
      (e : Entry) (o : ℕ) → IsExact lib → o < 2 ^ 53 → field_offset lib (stated e) (pos o) ≡ pos o
  unfolding field_offset get eq_bytes int_or value_or
  stated-offset e o exact h = rw (exact o h)

  stated-scale : (e : Entry) (v : Value) → apply_struct_scale lib v (stated e) ≡ v
  unfolding apply_struct_scale get eq_bytes
  stated-scale e v = refl

  stated-parse :
      (n : Bytes) (w : Width) (x : ℕ) (payload : Bytes) (o : ℕ)
      → o ≤ length payload
      → let m = stated (record { name = n; width = w; value = x }) in
        parse_at lib payload (pos o) m
        ≡ parse_kind lib
            (unsigned_kind w)
            payload
            (pos o)
            (int_or lib (get m (codes "length")) (int (pos 0)))
            false
            m
  unfolding parse_at kind_of get eq_bytes value_or sprint to_lower trim_space
  stated-parse n one x payload o h = rw (le→not_ltb (o + 0) (length payload + 0) (omega arith))
  stated-parse n two x payload o h = rw (le→not_ltb (o + 0) (length payload + 0) (omega arith))
  stated-parse n four x payload o h = rw (le→not_ltb (o + 0) (length payload + 0) (omega arith))

  step :
      (e : Entry) (rest : Items) (payload : Bytes) (result : Fields) (o next : ℕ)
      → trim_space e.name ≡ e.name
      → eq_bytes e.name [] ≡ false
      → IsExact lib
      → o < 2 ^ 53
      → parse_at lib payload (pos o) (stated e) ≡ ok (integer e.width (pos e.value), pos next)
      → parse_fields lib payload (cons (object (stated e)) rest) result (pos o)
        ≡ parse_fields lib payload rest
            (set result e.name (integer e.width (pos e.value)))
            (pos next)
  unfolding parse_fields as_object
  step e rest payload result o next t ne exact small parsed = rw (
    stated-name e t,
    ne,
    stated-offset e o exact small,
    parsed,
    stated-scale e (integer e.width (pos e.value)),
  )

  -- Round trip of a record layout: unsigned integers of 8, 16 and 32 bits written one after the other,
  -- big-endian, are read back under their names by a list of fields that states only names and types,
  -- with no offsets, lengths or byte order: the cursor finds each. The names are trimmed and not
  -- empty, and the payload is shorter than 2^53.
  pub parse_fields-layout :
      (es : List Entry) (before : Bytes) (result : Fields)
      → IsExact lib
      → AllFit es
      → length (before ++ written es) < 2 ^ 53
      → parse_fields lib (before ++ written es) (layout es) result (pos (length before))
        ≡ ok (recorded result es)
  unfolding parse_fields
  parse_fields-layout [] before result exact fits small = refl
  parse_fields-layout (e ∷ es) before result exact fits small =
      let enc : Bytes = encode e.width false e.value in
      let payload : Bytes = before ++ (enc ++ written es) in
      let len = length-within e.width false e.value before (written es) in
      let parsed : parse_at lib payload (pos (length before)) (stated e)
          ≡ ok (integer e.width (pos e.value), pos (length before + size e.width)) =
        stated-parse e.name e.width e.value payload (length before) (omega (arith, len))
        ∙ parse-unsigned lib false before (written es) _ (stated e) e.width e.value fits.2
            (omega (arith, len)) in
      let before' : Bytes = before ++ enc in
      let there : length before' ≡ length before + size e.width =
        omega (arith, length-append before enc, length-encode e.width false e.value) in
      step e (layout es) payload result (length before) (length before + size e.width) fits.0 fits.1
        exact (omega (arith, len)) parsed
      ∙ rw (← there, ← append_assoc before enc (written es))
          (parse_fields-layout es before' (set result e.name (integer e.width (pos e.value))) exact
            fits.3 (rw (append_assoc before enc (written es)) small))
