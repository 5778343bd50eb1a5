-- ===== src/Manager/Lifecycle/Shutdown.antt =====
-- What a shutdown leaves, and what the manager tells of its runtimes (Shutdown, HealthSnapshot).
use quantix_cnnector_go.Prelude.{
  ℕ, ◌+◌, ◌≡◌, refl, sym, ◌↔◌, ltb, ◌∙◌, Bool, true, false, ◌||◌, Option, none, some, Option-cases,
  List, [], ◌∷◌, map, length, ◌==◌, inl, inr, Bool-cases, arith, if◌then◌else◌,
}
use quantix_cnnector_go.Prelude.Text.{Bytes, codes, eq_bytes_iff}
use quantix_cnnector_go.Value.{Libs, Error}
use quantix_cnnector_go.Driver.{Driver}
use quantix_cnnector_go.Manager.Lifecycle.{
  stop_timeout, Handle, Manager, returned, find, delete, stop_device, ids_of, for_ids, shutdown,
  first_error, tally, count_offline, health_snapshot,
}

mem : ℕ → List ℕ → Bool
mem j [] = false
mem j (i ∷ is) = i == j || mem j is

module _ {D : Type 0} where
  -- No ioMu is held for good.
  abbrev pub AllFree : List (Handle D) → Type 0
  AllFree [] = Unit {0}
  AllFree (h ∷ hs) = (h.locked ≡ false) × AllFree hs

  abbrev Covered : List ℕ → List (Handle D) → Type 0
  Covered ids [] = Unit {0}
  Covered ids (h ∷ hs) = (mem h.device.id ids ≡ true) × Covered ids hs

  find-AllFree :
      (id : ℕ) (hs : List (Handle D)) (h : Handle D)
      → AllFree hs
      → find id hs ≡ some h
      → h.locked ≡ false
  unfolding find
  find-AllFree id [] h f e = cc
  find-AllFree id (g ∷ hs) h f e = ground (arith, find-AllFree id hs h f.1)

  delete-AllFree : (id : ℕ) (hs : List (Handle D)) → AllFree hs → AllFree (delete id hs)
  unfolding delete
  delete-AllFree id [] f = tt
  delete-AllFree id (h ∷ hs) f = elim (Bool-cases (h.device.id == id)) [
    | inl e ↦ rw e (delete-AllFree id hs f.1)
    | inr e ↦ rw e (f.0, delete-AllFree id hs f.1)
  ]

  delete-missing : (id : ℕ) (hs : List (Handle D)) → find id hs ≡ none → delete id hs ≡ hs
  unfolding delete find
  delete-missing id [] e = refl
  delete-missing id (h ∷ hs) e = ground (arith, delete-missing id hs)

  delete-Covered :
      (id : ℕ) (ids : List ℕ) (hs : List (Handle D))
      → Covered (id ∷ ids) hs
      → Covered ids (delete id hs)
  unfolding delete mem
  delete-Covered id ids [] c = tt
  delete-Covered id ids (h ∷ hs) c = elim (Bool-cases (h.device.id == id)) [
    | inl e ↦ rw e (delete-Covered id ids hs c.1)
    | inr e ↦ rw e (ground (arith, c.0), delete-Covered id ids hs c.1)
  ]

  Covered-cons :
      (id : ℕ) (ids : List ℕ) (hs : List (Handle D)) → Covered ids hs → Covered (id ∷ ids) hs
  unfolding mem
  Covered-cons id ids [] c = tt
  Covered-cons id ids (h ∷ hs) c = (ground (arith, c.0), Covered-cons id ids hs c.1)

  ids_of-Covered : (hs : List (Handle D)) → Covered (map (λ h. h.device.id) hs) hs
  unfolding mem
  ids_of-Covered [] = tt
  ids_of-Covered (h ∷ hs) = (ground arith, Covered-cons h.device.id _ hs (ids_of-Covered hs))

  Covered-none : (hs : List (Handle D)) → Covered [] hs → hs ≡ []
  unfolding mem
  Covered-none [] c = refl
  Covered-none (h ∷ hs) c = cc

module _ (lib : Libs) {D : Type 0} (drv : Driver D) (late : Bool) (now : ℕ) where
  stop_device-free :
      (id : ℕ) (m : Manager D)
      → AllFree m.runtimes
      → (e : Option Error) × ((stop_device lib drv late now id m).1 ≡ returned e)
        × ((stop_device lib drv late now id m).0.runtimes ≡ delete id m.runtimes)
  unfolding stop_device
  stop_device-free id m f = elim (Option-cases (find id m.runtimes)) [
    | inl absent ↦ (
      none,
      rw (absent, stop_device) refl,
      rw (absent, stop_device) (sym (delete-missing id m.runtimes absent)),
    )
    | inr (h, found) ↦
        let free = find-AllFree id m.runtimes h f found in
        (
          if late then some (stop_timeout id) else none,
          rw (found, free, stop_device) refl,
          rw (found, free, stop_device) refl,
        )
  ]

  for_ids-stops :
      (ids : List ℕ) (first : Option Error) (m : Manager D)
      → AllFree m.runtimes
      → Covered ids m.runtimes
      → (e : Option Error) × ((for_ids lib drv (stop_device lib drv late now) ids first m).1
          ≡ returned e)
        × ((for_ids lib drv (stop_device lib drv late now) ids first m).0.runtimes ≡ [])
  unfolding for_ids
  for_ids-stops [] first m f c = (first, refl, Covered-none m.runtimes c)
  for_ids-stops (id ∷ ids) first m f c =
      let m' = (stop_device lib drv late now id m).0 in
      let (e, r, rest) = stop_device-free id m f in
      let f' : AllFree m'.runtimes = rw rest (delete-AllFree id m.runtimes f) in
      let c' : Covered ids m'.runtimes = rw rest (delete-Covered id ids m.runtimes c) in
      rw (r, for_ids) (for_ids-stops ids (first_error lib drv first e) m' f' c')

  -- A shutdown returns and leaves no runtime, even if some of them do not end in time: one that is late does
  -- not keep the others from being stopped.
  pub shutdown-empties :
      (m : Manager D)
      → AllFree m.runtimes
      → (e : Option Error) × ((shutdown lib drv late now m).1 ≡ returned e)
        × ((shutdown lib drv late now m).0.runtimes ≡ [])
  unfolding shutdown
  shutdown-empties m f =
      for_ids-stops (ids_of lib drv m.runtimes) none m f (ids_of-Covered m.runtimes)

tally-sum :
    (ss : List Bytes)
    → tally (codes "online") ss + count_offline ss + tally (codes "error") ss ≡ length ss
unfolding tally count_offline
tally-sum [] = refl
tally-sum (s ∷ ss) =
    ground (arith, tally-sum ss, eq_bytes_iff s (codes "online"), eq_bytes_iff s (codes "error"))

length-map : {A B : Type 0} (f : A → B) (xs : List A) → length (map f xs) ≡ length xs
length-map f [] = refl
length-map f (x ∷ xs) = ground (arith, length-map f xs)

verdict :
    (errors dropped : ℕ)
    → ◌≡◌ {A = Bytes}
        (if ltb 0 errors || ltb 0 dropped then codes "degraded" else codes "ok")
        (codes "ok")
      ↔ (errors + dropped ≡ 0)
verdict errors dropped = (λ h. ground arith, λ h. ground arith)

-- Every runtime is counted once by the health report, as online, offline or in error, and the report says
-- "ok" exactly when none is in error and the event bus has dropped nothing.
pub health_snapshot-counts :
    {D : Type 0} (m : Manager D) (dropped : ℕ)
    → ((health_snapshot m dropped).online_count
          + (health_snapshot m dropped).offline_count
          + (health_snapshot m dropped).error_count
        ≡ (health_snapshot m dropped).runtime_count)
      × (((health_snapshot m dropped).status ≡ codes "ok")
          ↔ ((health_snapshot m dropped).error_count + dropped ≡ 0))
unfolding health_snapshot
health_snapshot-counts m dropped =
    let statuses = map (λ h. h.state.status) m.runtimes in
    (
      tally-sum statuses ∙ length-map (λ h. h.state.status) m.runtimes,
      verdict (tally (codes "error") statuses) dropped,
    )
