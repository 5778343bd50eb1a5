-- ===== src/Modbus/Bits.antt =====
-- Which bits the coils of an answer are (bytesToBits).
use quantix_cnnector_go.Prelude.{
  ℕ, suc, zero, ◌+◌, ◌/◌, ◌%◌, ◌^◌, ◌<◌, ◌≡◌, refl, Bool, false, not, Option, none, some, [], ◌∷◌,
  ◌==◌, ==_iff, ap, get_elem?, get_or, length, arith, Bool-cases, inl, inr,
}
use quantix_cnnector_go.Prelude.Text.{Bytes}
use quantix_cnnector_go.Modbus.{bits_from, bytes_to_bits}

-- b & (1 << i) != 0, and false where there is no byte
abbrev pub bit_of : Option ℕ → ℕ → Bool
bit_of none i = false
bit_of (some b) i = not (b / 2 ^ i % 2 == 0)

bits_from-get_or :
    (i n k : ℕ) (bs : Bytes)
    → i < 8
    → k < n
    → get_or (bits_from i n bs) k false ≡ bit_of (get_elem? bs ((i + k) / 8)) ((i + k) % 8)
unfolding bits_from
bits_from-get_or i zero k bs l h = absurd (omega arith)
bits_from-get_or i (suc n) zero [] l h = refl
bits_from-get_or i (suc n) (suc k) [] l h = bits_from-get_or 0 n k [] (omega arith) (omega arith)
bits_from-get_or i (suc n) zero (b ∷ bs) l h =
    let q : (i + 0) / 8 ≡ 0 = omega arith in let r : (i + 0) % 8 ≡ i = omega arith in rw (q, r) refl
bits_from-get_or i (suc n) (suc k) (b ∷ bs) l h = elim (Bool-cases (i == 7)) [
  | inl last ↦
      let seven : i ≡ 7 = (==_iff i 7).0 last in
      let q : (i + suc k) / 8 ≡ suc ((0 + k) / 8) = omega arith in
      let r : (i + suc k) % 8 ≡ (0 + k) % 8 = omega arith in
      rw (last, q, r) (bits_from-get_or 0 n k bs (omega arith) (omega arith))
  | inr other ↦
      let below : suc i < 8 = ground (arith, ==_iff i 7) in
      let same : i + suc k ≡ suc i + k = omega arith in
      rw (other, same) (bits_from-get_or (suc i) n k (b ∷ bs) below (omega arith))
]

length-bits_from : (i n : ℕ) (bs : Bytes) → length (bits_from i n bs) ≡ n
unfolding bits_from
length-bits_from i zero bs = refl
length-bits_from i (suc n) [] = ap suc (length-bits_from 0 n [])
length-bits_from i (suc n) (b ∷ bs) = elim (Bool-cases (i == 7)) [
  | inl last ↦ rw last (ap suc (length-bits_from 0 n bs))
  | inr other ↦ rw other (ap suc (length-bits_from (suc i) n (b ∷ bs)))
]

-- The coils of an answer are as many as were asked for, and coil k is bit k % 8 of byte k / 8, false where the
-- answer has no such byte.
pub bytes_to_bits-get_or :
    (bs : Bytes) (count k : ℕ)
    → k < count
    → (length (bytes_to_bits bs count) ≡ count)
      × (get_or (bytes_to_bits bs count) k false ≡ bit_of (get_elem? bs (k / 8)) (k % 8))
unfolding bytes_to_bits
bytes_to_bits-get_or bs count k h =
    let zero_add : 0 + k ≡ k = omega arith in
    (length-bits_from 0 count bs, rw zero_add at (bits_from-get_or 0 count k bs (omega arith) h))
