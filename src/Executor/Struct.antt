-- ===== src/Executor/Struct.antt =====
-- internal/service/protocol_executor.go: the binary layouts of `parse: {type: struct}`
-- (readStructBytes, parseStructField, applyStructScale, parseStructResult).
pub mod Bounds
pub mod Roundtrip
pub mod Layout
use quantix_cnnector_go.Prelude.{
  ℕ, suc, zero, ◌+◌, ◌*◌, ◌/◌, ◌%◌, ◌^◌, ◌-◌, ◌==◌, if◌then◌else◌, Bool, true, false, not, ◌&&◌,
  ◌||◌, Option, none, some, List, [], ◌∷◌, ◌++◌, length, ltb,
}
use quantix_cnnector_go.Prelude.Int.{ℤ, pos, negsuc, signed, ltb_ℤ, leb_ℤ, ◌+ℤ◌}
use quantix_cnnector_go.Prelude.Text.{
  Bytes, codes, eq_bytes, trim_space, trim_right, to_lower, show_int, decimal, hex_spaced,
}
use quantix_cnnector_go.Value.{
  Value, null, bool, int, int64, float64, string, bytes, object, Items, nil, cons, Fields, end,
  Libs, Result, ok, err, panic, ◌>>=◌, Error, errorf, wrap_errorf, value_or, as_object, as_items,
}
use quantix_cnnector_go.Value.Maps.{get, set}
use quantix_cnnector_go.Value.Sprint.{sprint}
use quantix_cnnector_go.Executor.Convert.{slice, any_to_float, int_or, extract_payload_raw}

-- binary.BigEndian, binary.LittleEndian over as many bytes as there are
abbrev pub big : ℕ → Bytes → ℕ
big acc [] = acc
big acc (b ∷ bs) = big (acc * 256 + b) bs

abbrev pub little : Bytes → ℕ
little [] = 0
little (b ∷ bs) = b + 256 * little bs

abbrev pub word : Bool → Bytes → ℕ
word true bs = little bs
word false bs = big 0 bs

-- len(payload) - offset, of numbers below 2^63
abbrev pub minus : ℕ → ℤ → ℤ
minus n (pos m) = if ltb n m then negsuc (m - n - 1) else pos (n - m)
minus n (negsuc m) = pos n +ℤ pos (suc m)

pub invalid_length : ℤ → Error
invalid_length size = errorf (codes "invalid length: " ++ show_int size)

pub too_short : ℤ → ℕ → Error
too_short need have =
    errorf (codes "payload too short: need=" ++ show_int need ++ codes " have=" ++ decimal have)

pub offset_out_of_range : ℤ → ℕ → Error
offset_out_of_range offset have =
    errorf (codes "offset out of range: " ++ show_int offset ++ codes " > " ++ decimal have)

pub bit_out_of_range : ℤ → Error
bit_out_of_range i = errorf (codes "bit index out of range: " ++ show_int i)

unfoldable pub read_struct_bytes : Bytes → ℤ → ℤ → Result Bytes
unfolding slice
read_struct_bytes payload offset size =
    let stop = offset +ℤ size in
    if ltb_ℤ size (pos 0)
    then err (invalid_length size)
    else if ltb_ℤ (pos (length payload)) stop
    then err (too_short stop (length payload))
    else slice payload offset stop

-- The types of a field, in the order of the switch.
pub data Kind : Type 0 where
  u8 i8 u16 i16 u32 i32 f32 f64 bit truth raw text : Kind
  unsupported : Bytes → Kind

unfoldable pub kind_of : Bytes → Kind
unfolding eq_bytes
kind_of typ =
    if eq_bytes typ (codes "u8")
    then u8
    else if eq_bytes typ (codes "i8")
    then i8
    else if eq_bytes typ (codes "u16")
    then u16
    else if eq_bytes typ (codes "i16")
    then i16
    else if eq_bytes typ (codes "u32")
    then u32
    else if eq_bytes typ (codes "i32")
    then i32
    else if eq_bytes typ (codes "f32") || eq_bytes typ (codes "float32")
    then f32
    else if eq_bytes typ (codes "f64") || eq_bytes typ (codes "float64")
    then f64
    else if eq_bytes typ (codes "bit")
    then bit
    else if eq_bytes typ (codes "bool")
    then truth
    else if eq_bytes typ (codes "bytes")
    then raw
    else if eq_bytes typ (codes "string")
    then text
    else unsupported typ

abbrev pub is_little : Bytes → Bool
is_little endian = eq_bytes endian (codes "little") || eq_bytes endian (codes "le")

abbrev is_nul : ℕ → Bool
is_nul c = c == 0

module _ (lib : Libs) where
  -- A field of fixed size: its bytes, their value, and the offset behind them.
  abbrev pub fixed : Bytes → ℤ → ℕ → (Bytes → Value) → Result (Value × ℤ)
  fixed payload offset size value = do
    b ← read_struct_bytes payload offset (pos size)
    ok (value b, offset +ℤ pos size)

  -- length, or the rest of the payload if that is not positive
  abbrev pub extent : Bytes → ℤ → ℤ → ℤ
  extent payload offset size = if leb_ℤ size (pos 0) then minus (length payload) offset else size

  abbrev pub sized : Bytes → ℤ → ℤ → (Bytes → Value) → Result (Value × ℤ)
  sized payload offset n value = do
    b ← read_struct_bytes payload offset n
    ok (value b, offset +ℤ n)

  abbrev pub bit_of : ℕ → Bytes → Value
  bit_of i bs = bool (not (big 0 bs / 2 ^ i % 2 == 0))

  abbrev pub bit_field : Bytes → ℤ → ℤ → Result (Value × ℤ)
  bit_field payload offset (pos i) = read_struct_bytes payload offset (pos 1) >>= λ b.
      if ltb 7 i then err (bit_out_of_range (pos i)) else ok (bit_of i b, offset +ℤ pos 1)
  bit_field payload offset (negsuc i) =
      read_struct_bytes payload offset (pos 1) >>= λ b. err (bit_out_of_range (negsuc i))

  unfoldable pub parse_kind : Kind → Bytes → ℤ → ℤ → Bool → Fields → Result (Value × ℤ)
  parse_kind u8 payload offset size le m = fixed payload offset 1 (λ b. int (pos (word le b)))
  parse_kind i8 payload offset size le m =
      fixed payload offset 1 (λ b. int (signed (2 ^ 7) (word le b)))
  parse_kind u16 payload offset size le m = fixed payload offset 2 (λ b. int (pos (word le b)))
  parse_kind i16 payload offset size le m =
      fixed payload offset 2 (λ b. int (signed (2 ^ 15) (word le b)))
  parse_kind u32 payload offset size le m = fixed payload offset 4 (λ b. int64 (pos (word le b)))
  parse_kind i32 payload offset size le m =
      fixed payload offset 4 (λ b. int64 (signed (2 ^ 31) (word le b)))
  parse_kind f32 payload offset size le m =
      fixed payload offset 4 (λ b. float64 (lib.widen (word le b)))
  parse_kind f64 payload offset size le m = fixed payload offset 8 (λ b. float64 (word le b))
  parse_kind bit payload offset size le m =
      bit_field payload offset (int_or lib (get m (codes "bit")) (int (pos 0)))
  parse_kind truth payload offset size le m =
      fixed payload offset 1 (λ b. bool (not (big 0 b == 0)))
  parse_kind raw payload offset size le m = sized payload offset (extent payload offset size) bytes
  parse_kind text payload offset size le m =
      sized payload offset (extent payload offset size) (λ b. string (trim_right is_nul b))
  parse_kind (unsupported typ) payload offset size le m =
      err (errorf (codes "unsupported struct field type: " ++ typ))

  unfoldable pub parse_struct_field : Bytes → ℤ → ℤ → Bytes → Bytes → Fields → Result (Value × ℤ)
  unfolding parse_kind
  parse_struct_field payload offset size typ endian m =
      if ltb_ℤ (pos (length payload)) offset
      then err (offset_out_of_range offset (length payload))
      else parse_kind (kind_of typ) payload offset size (is_little endian) m

  abbrev scaled : Value → Value → Value
  scaled null v = v
  scaled s (int n) = float64 (lib.mul (lib.float_of_int n) (any_to_float lib s))
  scaled s (int64 n) = float64 (lib.mul (lib.float_of_int n) (any_to_float lib s))
  scaled s (float64 f) = float64 (lib.mul f (any_to_float lib s))
  scaled s v = v

  unfoldable pub apply_struct_scale : Value → Fields → Value
  apply_struct_scale v m = scaled (get m (codes "scale")) v

  -- fmt.Sprintf("%v", execValueOr(field[key], fallback)), trimmed and in lower case
  abbrev option_text : Fields → Bytes → Bytes → Bytes
  option_text m key fallback =
      to_lower (trim_space (sprint lib (value_or (get m key) (string fallback))))

  abbrev at_least_zero : ℤ → ℤ
  at_least_zero (pos n) = pos n
  at_least_zero (negsuc n) = pos 0

  unfoldable pub field_name : Fields → Bytes
  field_name m = trim_space (sprint lib (get m (codes "name")))

  -- offset, or the cursor, and not below 0
  unfoldable pub field_offset : Fields → ℤ → ℤ
  field_offset m cursor = at_least_zero (int_or lib (get m (codes "offset")) (int cursor))

  unfoldable pub parse_at : Bytes → ℤ → Fields → Result (Value × ℤ)
  unfolding parse_struct_field
  parse_at payload offset m =
      parse_struct_field payload offset (int_or lib (get m (codes "length")) (int (pos 0)))
        (option_text m (codes "type") (codes "u16")) (option_text m (codes "endian") (codes "big"))
        m

  abbrev named : Bytes → Error → Error
  named name e = wrap_errorf (codes "field " ++ name ++ codes " parse failed: " ++ e.text)

  abbrev in_field {ℓ} : {A : Type ℓ} → Bytes → Result A → Result A
  in_field name (ok a) = ok a
  in_field name (err e) = err (named name e)
  in_field name panic = panic

  -- The loop over the fields: what has been read so far, and the cursor.
  unfoldable pub parse_fields : Bytes → Items → Fields → ℤ → Result Fields
  parse_fields payload nil result cursor = ok result
  parse_fields payload (cons x rest) result cursor = elim (as_object x) [
    | none ↦ parse_fields payload rest result cursor
    | some m ↦
        let name = field_name m in
        let skip = parse_fields payload rest result cursor in
        let read : Result Fields =
          in_field name (parse_at payload (field_offset m cursor) m) >>= λ found.
          parse_fields payload rest (set result name (apply_struct_scale found.0 m)) found.1 in
        if eq_bytes name [] then skip else read
  ]

  abbrev or_none : Option Items → Items
  or_none none = nil
  or_none (some xs) = xs

  abbrev pub describe : Bytes → Fields
  describe payload =
      set (set end (codes "_payload_hex") (string (hex_spaced payload))) (codes "_payload_size")
        (int (pos (length payload)))

  parse_layout : Items → Bytes → Result Fields
  parse_layout nil payload = ok (set (describe payload) (codes "payload_text") (string payload))
  parse_layout (cons x xs) payload = parse_fields payload (cons x xs) (describe payload) (pos 0)

  unfoldable pub parse_struct_result : Fields → Value → Result Fields
  unfolding parse_layout
  parse_struct_result config v = parse_layout (or_none (as_items (get config (codes "fields")))) (
      extract_payload_raw lib v
        (sprint lib (value_or (get config (codes "payload_encoding")) (string []))))
