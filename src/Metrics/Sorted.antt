-- ===== src/Metrics/Sorted.antt =====
-- The snapshot is sorted, and percentiles read it (latencySnapshot, percentile).
use quantix_cnnector_go.Prelude.{
  ℕ, suc, zero, ◌≤◌, ◌<◌, ◌≡◌, List, [], ◌∷◌, if◌then◌else◌, arith, length, get_or, take,
}
use quantix_cnnector_go.Prelude.Int.{ℤ, pos, negsuc, ◌≤ℤ◌, leb_ℤ}
use quantix_cnnector_go.Metrics.{
  RuntimeMetrics, insert, sort, latency_snapshot, percentile, within_values,
}

-- x is at most every element
abbrev pub Least : ℕ → List ℕ → Type 0
Least x [] = Unit {0}
Least x (y ∷ ys) = (x ≤ y) × Least x ys

abbrev pub IsSorted : List ℕ → Type 0
IsSorted [] = Unit {0}
IsSorted (x ∷ xs) = Least x xs × IsSorted xs

Least-mono : (x y : ℕ) (xs : List ℕ) → x ≤ y → Least y xs → Least x xs
Least-mono x y [] h l = tt
Least-mono x y (z ∷ xs) h l = (omega arith, Least-mono x y xs h l.1)

Least-insert : (x y : ℕ) (xs : List ℕ) → x ≤ y → Least x xs → Least x (insert y xs)
unfolding insert
Least-insert x y [] h l = (h, tt)
Least-insert x y (z ∷ xs) h l = ground (arith, Least-insert x y xs h l.1)

insert-IsSorted : (x : ℕ) (xs : List ℕ) → IsSorted xs → IsSorted (insert x xs)
unfolding insert
insert-IsSorted x [] h = (tt, tt)
insert-IsSorted x (y ∷ ys) h =
    ground (arith, insert-IsSorted x ys h.1, Least-insert y x ys, Least-mono x y ys)

sort-IsSorted : (xs : List ℕ) → IsSorted (sort xs)
unfolding sort
sort-IsSorted [] = tt
sort-IsSorted (x ∷ xs) = insert-IsSorted x (sort xs) (sort-IsSorted xs)

-- The snapshot of any metrics is sorted.
pub latency_snapshot-IsSorted : (m : RuntimeMetrics) → IsSorted (latency_snapshot m)
unfolding latency_snapshot
latency_snapshot-IsSorted m =
    sort-IsSorted
      (take (if m.lat_filled then length m.latency_ring else m.lat_index) m.latency_ring)

get_or_ge : (x i : ℕ) (xs : List ℕ) → Least x xs → i < length xs → x ≤ get_or xs i 0
get_or_ge x i [] l h = absurd (omega arith)
get_or_ge x zero (y ∷ ys) l h = l.0
get_or_ge x (suc i) (y ∷ ys) l h = get_or_ge x i ys l.1 (omega arith)

get_or_mono :
    (i j : ℕ) (xs : List ℕ) → IsSorted xs → i ≤ j → j < length xs → get_or xs i 0 ≤ get_or xs j 0
get_or_mono i j [] s h g = absurd (omega arith)
get_or_mono zero zero (x ∷ xs) s h g = omega arith
get_or_mono zero (suc j) (x ∷ xs) s h g = get_or_ge x j xs s.0 (omega arith)
get_or_mono (suc i) zero (x ∷ xs) s h g = absurd (omega arith)
get_or_mono (suc i) (suc j) (x ∷ xs) s h g = get_or_mono i j xs s.1 (omega arith) (omega arith)

module _ (scaled : ℕ → ℤ → ℤ) where
  -- The index that a percentile reads.
  index : ℕ → ℤ → ℕ
  index last p =
      if leb_ℤ p (pos 0)
      then 0
      else if leb_ℤ (pos 100) p
      then last
      else within_values scaled (suc last) (scaled last p)

  percentile-index :
      (v : ℕ) (vs : List ℕ) (p : ℤ)
      → percentile scaled (v ∷ vs) p ≡ get_or (v ∷ vs) (index (length vs) p) 0
  unfolding percentile index
  percentile-index v vs p = ground arith

  within_values-le : (last : ℕ) (i : ℤ) → within_values scaled (suc last) i ≤ last
  within_values-le last (pos i) = ground arith
  within_values-le last (negsuc i) = omega arith

  index-le : (last : ℕ) (p : ℤ) → index last p ≤ last
  unfolding index
  index-le last p = ground (arith, within_values-le last (scaled last p))

  within_values_mono :
      (last : ℕ) (i j : ℤ)
      → i ≤ℤ j
      → within_values scaled (suc last) i ≤ within_values scaled (suc last) j
  within_values_mono last (pos i) (pos j) h = ground arith
  within_values_mono last (pos i) (negsuc j) h = absurd (omega arith)
  within_values_mono last (negsuc i) (pos j) h = ground arith
  within_values_mono last (negsuc i) (negsuc j) h = omega arith

  index_mono :
      (last : ℕ) (p q : ℤ) → p ≤ℤ q → scaled last p ≤ℤ scaled last q → index last p ≤ index last q
  unfolding index
  index_mono last p q h g = ground (
    arith,
    within_values_mono last (scaled last p) (scaled last q),
    within_values-le last (scaled last p),
  )

  -- On a sorted snapshot that is not empty a percentile lies between the first and the last value,
  -- whatever the rounding of the index, and a higher percentile is at least a lower one if the rounded
  -- index does not fall.
  pub percentile_mono :
      (v : ℕ) (vs : List ℕ) (p q : ℤ)
      → IsSorted (v ∷ vs)
      → p ≤ℤ q
      → scaled (length vs) p ≤ℤ scaled (length vs) q
      → (v ≤ percentile scaled (v ∷ vs) p)
        × (percentile scaled (v ∷ vs) p ≤ percentile scaled (v ∷ vs) q)
        × (percentile scaled (v ∷ vs) q ≤ get_or (v ∷ vs) (length vs) 0)
  percentile_mono v vs p q s h g =
      let last : ℕ = length vs in
      rw (percentile-index v vs p, percentile-index v vs q)
        (
          get_or_mono 0 (index last p) (v ∷ vs) s (omega arith) (omega (arith, index-le last p)),
          get_or_mono (index last p) (index last q) (v ∷ vs) s (index_mono last p q h g)
              (omega (arith, index-le last q)),
          get_or_mono (index last q) last (v ∷ vs) s (index-le last q) (omega arith),
        )
