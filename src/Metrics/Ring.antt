-- ===== src/Metrics/Ring.antt =====
-- The ring holds the last latencies (RecordPollLatency, latencySnapshot).
use mathlib.Core.List.{Perm, perm_append_comm}
use mathlib.Core.List.Perm
use quantix_cnnector_go.Prelude.{
  ℕ, suc, zero, ◌-◌, ◌≤◌, ◌<◌, ◌≡◌, refl, ap, sym, subst, ◌∙◌, Bool, true, false, Bool-cases, inl,
  inr, List, [], ◌∷◌, ◌++◌, map, append-nil, append_assoc, ltb, leb, dec_le, lt→ltb, le→leb,
  lt→not_leb, if◌then◌else◌, arith, length, length-append, length-take, length-drop, length-set,
  set, take, drop, length-replicate, take-append-drop, keep_last, keep_last_all, keep_last-append,
  keep_last-snoc_full, drop-append, take_all, drop_all,
}
use quantix_cnnector_go.Prelude.Int.{ℤ, pos, negsuc}
use quantix_cnnector_go.Value.{Result, ok, ◌>>=◌}
use quantix_cnnector_go.Metrics.{
  RuntimeMetrics, new_runtime_metrics, record_poll_latency, latency_snapshot, clamp, sort, insert,
}

-- The latencies that the ring holds, oldest first.
abbrev pub view : RuntimeMetrics → List ℕ
view m =
    if m.lat_filled
    then drop m.lat_index m.latency_ring ++ take m.lat_index m.latency_ring
    else take m.lat_index m.latency_ring

abbrev pub capacity : RuntimeMetrics → ℕ
capacity m = length m.latency_ring

abbrev pub IsValid : RuntimeMetrics → Type 0
IsValid m = m.lat_index < capacity m

take-set :
    (i : ℕ) (xs : List ℕ) (v : ℕ) → i < length xs → take (suc i) (set xs i v) ≡ take i xs ++ v ∷ []
take-set i [] v h = absurd (omega arith)
take-set zero (x ∷ xs) v h = refl
take-set (suc i) (x ∷ xs) v h = ap (◌∷◌ x) (take-set i xs v (omega arith))

drop-set :
    (i : ℕ) (xs : List ℕ) (v : ℕ) → i < length xs → drop (suc i) (set xs i v) ≡ drop 1 (drop i xs)
drop-set i [] v h = absurd (omega arith)
drop-set zero (x ∷ xs) v h = refl
drop-set (suc i) (x ∷ xs) v h = drop-set i xs v (omega arith)

abbrev held_list : Bool → ℕ → List ℕ → List ℕ
held_list filled i xs = if filled then drop i xs ++ take i xs else take i xs

-- One write, seen on the list.
module _ (i : ℕ) (xs : List ℕ) (v : ℕ) (inside : i < length xs) where
  partly : keep_last (length xs) (take i xs ++ v ∷ []) ≡ take (suc i) (set xs i v)
  partly =
      keep_last_all (length xs) (take i xs ++ v ∷ [])
        (omega (arith, length-append (take i xs) (v ∷ []), length-take i xs))
      ∙ sym (take-set i xs v inside)

  wholly :
      keep_last (length xs) ((drop i xs ++ take i xs) ++ v ∷ [])
      ≡ drop (suc i) (set xs i v) ++ take (suc i) (set xs i v)
  wholly =
      let n : ℕ = length xs - 1 in
      let e : length xs ≡ suc n = omega arith in
      let l : length (drop i xs ++ take i xs) ≡ suc n =
        omega (arith, length-append (drop i xs) (take i xs), length-take i xs, length-drop i xs) in
      rw (e, keep_last-snoc_full n (drop i xs ++ take i xs) v l)
        (rw
          (
            drop-append 1 (drop i xs) (take i xs) (omega (arith, length-drop i xs)),
            drop-set i xs v inside,
            take-set i xs v inside,
          )
          (append_assoc (drop 1 (drop i xs)) (take i xs) (v ∷ [])))

  held_next :
      (filled : Bool)
      → held_list filled (suc i) (set xs i v)
        ≡ keep_last (length xs) (held_list filled i xs ++ v ∷ [])
  held_next true = sym wholly
  held_next false = sym partly

  held_wraps :
      (filled : Bool)
      → length xs ≤ suc i
      → set xs i v ++ [] ≡ keep_last (length xs) (held_list filled i xs ++ v ∷ [])
  held_wraps filled h = append-nil (set xs i v) ∙ all filled ∙ held_next filled
    where
      all : (b : Bool) → set xs i v ≡ held_list b (suc i) (set xs i v)
      all true = rw (
        drop_all (suc i) (set xs i v) (omega (arith, length-set xs i v)),
        take_all (suc i) (set xs i v) (omega (arith, length-set xs i v)),
      )
      all false = sym (take_all (suc i) (set xs i v) (omega (arith, length-set xs i v)))

-- What a recorded latency does to the ring.
abbrev After : RuntimeMetrics → ℤ → RuntimeMetrics → Type 0
After m d m' =
    IsValid m'
    × (capacity m' ≡ capacity m)
    × (view m' ≡ keep_last (capacity m) (view m ++ clamp d ∷ []))

recorded : RuntimeMetrics → ℤ → RuntimeMetrics
recorded m d =
    let wraps = leb (length m.latency_ring) (suc m.lat_index) in
    record m {
      latency_ring = set m.latency_ring m.lat_index (clamp d);
      lat_index = if wraps then 0 else suc m.lat_index;
      lat_filled = if wraps then true else m.lat_filled;
    }

record-recorded :
    (m : RuntimeMetrics) (d : ℤ) → IsValid m → record_poll_latency m d ≡ ok (recorded m d)
unfolding record_poll_latency recorded
record-recorded m d v = rw (lt→ltb m.lat_index (capacity m) v)

recorded-After : (m : RuntimeMetrics) (d : ℤ) → IsValid m → After m d (recorded m d)
unfolding recorded
recorded-After m d v = elim (dec_le (capacity m) (suc m.lat_index)) [
  | yes p ↦ rw (le→leb (capacity m) (suc m.lat_index) p) (
    omega (arith, length-set m.latency_ring m.lat_index (clamp d)),
    length-set m.latency_ring m.lat_index (clamp d),
    held_wraps m.lat_index m.latency_ring (clamp d) v m.lat_filled p,
  )
  | no p ↦ rw (lt→not_leb (suc m.lat_index) (capacity m) (omega arith)) (
    omega (arith, length-set m.latency_ring m.lat_index (clamp d)),
    length-set m.latency_ring m.lat_index (clamp d),
    held_next m.lat_index m.latency_ring (clamp d) v m.lat_filled,
  )
]

pub record_all : RuntimeMetrics → List ℤ → Result RuntimeMetrics
record_all m [] = ok m
record_all m (d ∷ ds) = do m' ← record_poll_latency m d; record_all m' ds

length-held :
    (filled : Bool) (i : ℕ) (xs : List ℕ)
    → i < length xs
    → length (held_list filled i xs) ≤ length xs
length-held true i xs h =
    omega (arith, length-append (drop i xs) (take i xs), length-take i xs, length-drop i xs)
length-held false i xs h = omega (arith, length-take i xs)

length-view-le : (m : RuntimeMetrics) → IsValid m → length (view m) ≤ capacity m
length-view-le m v = length-held m.lat_filled m.lat_index m.latency_ring v

-- From any valid ring a list of recordings goes through, and the ring then holds the last of what it
-- held followed by them.
record_all-view :
    (ds : List ℤ) (m : RuntimeMetrics)
    → IsValid m
    → (m' : RuntimeMetrics) × (record_all m ds ≡ ok m')
      × (capacity m' ≡ capacity m)
      × IsValid m'
      × (view m' ≡ keep_last (capacity m) (view m ++ map clamp ds))
unfolding record_all
record_all-view [] m v = (
  m,
  refl,
  refl,
  v,
  sym (
      keep_last_all (capacity m) (view m ++ []) (rw (append-nil (view m)) (length-view-le m v))
      ∙ append-nil (view m)),
)
record_all-view (d ∷ ds) m v =
    let m1 : RuntimeMetrics = recorded m d in
    let (v1, c1, w1) = recorded-After m d v in
    let (m', r, c, v', w) = record_all-view ds m1 v1 in
    let grown : List ℕ = view m ++ clamp d ∷ [] in
    (
      m',
      rw (record-recorded m d v) r,
      c ∙ c1,
      v',
      w
          ∙ ap (λ (n : ℕ). keep_last n (view m1 ++ map clamp ds)) c1
          ∙ ap (λ (xs : List ℕ). keep_last (capacity m) (xs ++ map clamp ds)) w1
          ∙ keep_last-append (capacity m) grown (map clamp ds)
          ∙ ap (keep_last (capacity m)) (append_assoc (view m) (clamp d ∷ []) (map clamp ds)),
    )

new-IsValid : (n : ℤ) → IsValid (new_runtime_metrics n)
unfolding new_runtime_metrics
new-IsValid (pos n) =
    ground (arith, length-replicate {0} {A = ℕ} 256 0, length-replicate {0} {A = ℕ} n 0)
new-IsValid (negsuc n) = ground (arith, length-replicate {0} {A = ℕ} 256 0)

insert-perm : (x : ℕ) (xs : List ℕ) → Perm (insert x xs) (x ∷ xs)
unfolding insert
insert-perm x [] = Perm.refl (x ∷ [])
insert-perm x (y ∷ ys) = elim (Bool-cases (ltb y x)) [
  | inl below ↦ rw below (Perm.trans (Perm.cons y (insert-perm x ys)) (Perm.swap x y ys))
  | inr other ↦ rw other (Perm.refl (x ∷ y ∷ ys))
]

pub sort-perm : (xs : List ℕ) → Perm (sort xs) xs
unfolding sort
sort-perm [] = Perm.refl []
sort-perm (x ∷ xs) = Perm.trans (insert-perm x (sort xs)) (Perm.cons x (sort-perm xs))

-- The slots that the snapshot reads are those of the view, in another order.
slots-perm :
    (filled : Bool) (i : ℕ) (xs : List ℕ)
    → Perm (take (if filled then length xs else i) xs) (held_list filled i xs)
slots-perm true i xs = rw (take_all (length xs) xs (omega arith)) (
    subst (λ (ys : List ℕ). Perm ys (drop i xs ++ take i xs)) (take-append-drop i xs)
      (perm_append_comm (take i xs) (drop i xs)))
slots-perm false i xs = Perm.refl (take i xs)

latency_snapshot-perm : (m : RuntimeMetrics) → Perm (latency_snapshot m) (view m)
unfolding latency_snapshot
latency_snapshot-perm m =
    Perm.trans (sort-perm (take (if m.lat_filled then capacity m else m.lat_index) m.latency_ring))
      (slots-perm m.lat_filled m.lat_index m.latency_ring)

start-view : (n : ℤ) → view (new_runtime_metrics n) ≡ []
unfolding new_runtime_metrics
start-view n = refl

-- New metrics of whatever size take any list of latencies without a panic, and their snapshot then
-- holds, in some order, the last of these latencies that the ring has room for, negative ones as 0; the
-- ring keeps the size that it was made with.
pub record_all-snapshot :
    (n : ℤ) (ds : List ℤ)
    → (m : RuntimeMetrics) × (record_all (new_runtime_metrics n) ds ≡ ok m)
      × (capacity m ≡ capacity (new_runtime_metrics n))
      × Perm (latency_snapshot m) (keep_last (capacity (new_runtime_metrics n)) (map clamp ds))
record_all-snapshot n ds =
    let (m, r, c, v, w) = record_all-view ds (new_runtime_metrics n) (new-IsValid n) in
    let w' =
      w
      ∙ ap (λ (xs : List ℕ). keep_last (capacity (new_runtime_metrics n)) (xs ++ map clamp ds))
          (start-view n) in
    (m, r, c, subst (Perm (latency_snapshot m)) w' (latency_snapshot-perm m))
