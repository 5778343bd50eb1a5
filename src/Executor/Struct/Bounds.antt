-- ===== src/Executor/Struct/Bounds.antt =====
-- Reading inside the payload (readStructBytes, parseStructField).
use quantix_cnnector_go.Prelude.{
  ℕ, suc, zero, ◌+◌, ◌^◌, ◌-◌, ◌≤◌, ◌<◌, ◌≡◌, ◌⊎◌, inl, inr, Bool, length, ltb, arith, lt→ltb,
  le→not_ltb, le→leb, lt→not_leb, Bool-cases, take, drop, dec_lt, dec_le,
}
use quantix_cnnector_go.Prelude.Int.{ℤ, pos, pos_part, negsuc, pos-+ℤ, pos-+ℤ_wraps}
use quantix_cnnector_go.Prelude.Text.{Bytes}
use quantix_cnnector_go.Value.{Value, Fields, Libs, Result, ok, err, panic}
use quantix_cnnector_go.Executor.Struct.{
  read_struct_bytes, too_short, Kind, u8, i8, u16, i16, u32, i32, f32, f64, bit, truth, raw, text,
  unsupported, parse_kind, parse_struct_field, kind_of, sized, extent, bit_field,
}

module _ (payload : Bytes) (o k : ℕ) (inside : o ≤ length payload)
    (small : length payload < 2 ^ 63) where
  pub read_inside :
      o + k ≤ length payload
      → read_struct_bytes payload (pos o) (pos k) ≡ ok (take k (drop o payload))
  unfolding read_struct_bytes
  read_inside h =
      let e : o + k - o ≡ k = omega arith in rw (pos-+ℤ o k (omega arith)) (ground (arith, e))

  pub read_short :
      length payload < o + k
      → o + k < 2 ^ 63
      → read_struct_bytes payload (pos o) (pos k) ≡ err (too_short (pos (o + k)) (length payload))
  unfolding read_struct_bytes
  read_short h g = rw (pos-+ℤ o k (omega arith)) (ground arith)

  -- A size so large that the end of the read passes 2^63 makes the end negative, which the length test
  -- does not catch: the slice panics.
  pub read_wraps : k < 2 ^ 63 → 2 ^ 63 ≤ o + k → read_struct_bytes payload (pos o) (pos k) ≡ panic
  unfolding read_struct_bytes
  read_wraps h g = rw (pos-+ℤ_wraps o k (omega arith) h g) (ground arith)

  -- The three ways a read can go.
  abbrev ReadCases : Result Bytes → Type 0
  ReadCases r =
      ((r ≡ ok (take k (drop o payload))) × (o + k ≤ length payload))
      ⊎ ((r ≡ err (too_short (pos (o + k)) (length payload))) × (o + k < 2 ^ 63))
      ⊎ ((r ≡ panic) × (2 ^ 63 ≤ o + k))

  read_cases : k < 2 ^ 63 → ReadCases (read_struct_bytes payload (pos o) (pos k))
  read_cases h = elim (dec_le (o + k) (length payload)) [
    | yes p ↦ inl (read_inside p, p)
    | no p ↦ elim (dec_lt (o + k) (2 ^ 63)) [
      | yes q ↦ inr (inl (read_short (omega arith) q, q))
      | no q ↦ inr (inr (read_wraps h (omega arith), omega arith))
    ]
  ]

-- A result that stays inside: the offset behind the field lies between the field's offset and the end of
-- the payload. An error says nothing, and a panic is excluded.
abbrev pub Inside : Bytes → ℕ → Result (Value × ℤ) → Type 0
Inside payload o (ok (v, next)) = (n : ℕ) × (next ≡ pos n) × (o ≤ n) × (n ≤ length payload)
Inside payload o (err e) = Unit {0}
Inside payload o panic = ⊥

module _ (lib : Libs) (payload : Bytes) (o : ℕ) (inside : o ≤ length payload)
    (small : length payload + 8 < 2 ^ 63) where
  read-Inside :
      (k : ℕ) (value : Bytes → Value)
      → o + k < 2 ^ 63
      → Inside payload o (sized lib payload (pos o) (pos k) value)
  read-Inside k value h = elim (read_cases payload o k inside small' (omega arith)) [
    | inl (e, g) ↦ rw e (o + k, pos-+ℤ o k h, omega arith, g)
    | inr (inl (e, g)) ↦ rw e tt
    | inr (inr (e, g)) ↦ absurd (omega arith)
  ]
    where
      small' : length payload < 2 ^ 63
      small' = omega arith

  bit-Inside : (i : ℤ) → Inside payload o (bit_field lib payload (pos o) i)
  bit-Inside (pos i) = elim (read_cases payload o 1 inside (omega arith) (omega arith)) [
    | inl (e, g) ↦ rw e (elim (Bool-cases (ltb 7 i)) [
      | inl big ↦ rw big tt
      | inr small_bit ↦ rw small_bit (o + 1, pos-+ℤ o 1 (omega arith), omega arith, g)
    ])
    | inr (inl (e, g)) ↦ rw e tt
    | inr (inr (e, g)) ↦ absurd (omega arith)
  ]
  bit-Inside (negsuc i) = elim (read_cases payload o 1 inside (omega arith) (omega arith)) [
    | inl (e, g) ↦ rw e tt
    | inr (inl (e, g)) ↦ rw e tt
    | inr (inr (e, g)) ↦ absurd (omega arith)
  ]

  extent_pos :
      (size : ℤ)
      → o + pos_part size < 2 ^ 63
      → (k : ℕ) × (extent lib payload (pos o) size ≡ pos k) × (o + k < 2 ^ 63)
  extent_pos (pos zero) h =
      (length payload - o, rw (le→not_ltb o (length payload) inside), omega arith)
  extent_pos (pos (suc k)) h = (suc k, rw (lt→not_leb 0 (suc k + 0) (omega arith)), h)
  extent_pos (negsuc k) h = (
    length payload - o,
    rw (le→leb 0 (0 + suc k) (omega arith), le→not_ltb o (length payload) inside),
    omega arith,
  )

  extent-Inside :
      (size : ℤ) (value : Bytes → Value)
      → o + pos_part size < 2 ^ 63
      → Inside payload o (sized lib payload (pos o) (extent lib payload (pos o) size) value)
  extent-Inside size value h = let (k, e, g) = extent_pos size h in rw e (read-Inside k value g)

  kind-Inside :
      (kind : Kind) (size : ℤ) (le : Bool) (m : Fields)
      → o + pos_part size < 2 ^ 63
      → Inside payload o (parse_kind lib kind payload (pos o) size le m)
  unfolding parse_kind
  kind-Inside u8 size le m h = read-Inside 1 _ (omega arith)
  kind-Inside i8 size le m h = read-Inside 1 _ (omega arith)
  kind-Inside u16 size le m h = read-Inside 2 _ (omega arith)
  kind-Inside i16 size le m h = read-Inside 2 _ (omega arith)
  kind-Inside u32 size le m h = read-Inside 4 _ (omega arith)
  kind-Inside i32 size le m h = read-Inside 4 _ (omega arith)
  kind-Inside f32 size le m h = read-Inside 4 _ (omega arith)
  kind-Inside f64 size le m h = read-Inside 8 _ (omega arith)
  kind-Inside bit size le m h = bit-Inside _
  kind-Inside truth size le m h = read-Inside 1 _ (omega arith)
  kind-Inside raw size le m h = extent-Inside size _ h
  kind-Inside text size le m h = extent-Inside size _ h
  kind-Inside (unsupported typ) size le m h = tt

-- A field that starts at a non-negative offset, in a payload and with a length whose sums stay below
-- 2^63, never panics, whatever its type and options; if it parses, the offset behind it lies between
-- its start and the end of the payload.
pub parse_struct_field-Inside :
    (lib : Libs) (payload : Bytes) (o : ℕ) (size : ℤ) (typ endian : Bytes) (m : Fields)
    → length payload + 8 < 2 ^ 63
    → o + pos_part size < 2 ^ 63
    → Inside payload o (parse_struct_field lib payload (pos o) size typ endian m)
unfolding parse_struct_field
parse_struct_field-Inside lib payload o size typ endian m small h =
    elim (dec_le o (length payload)) [
      | yes p ↦
          rw (le→not_ltb (o + 0) (length payload + 0) (omega arith))
            (kind-Inside lib payload o p small (kind_of typ) size _ m h)
      | no p ↦ rw (lt→ltb (length payload + 0) (o + 0) (omega arith)) tt
    ]
