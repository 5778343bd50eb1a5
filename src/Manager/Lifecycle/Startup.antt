-- ===== src/Manager/Lifecycle/Startup.antt =====
-- The start of all enabled devices (internal/service/device_manager.go: Startup).
use quantix_cnnector_go.Prelude.{
  ℕ, zero, suc, ◌≡◌, refl, sym, ap, subst, ◌∙◌, Bool, Bool-cases, Option, none, some, List, [], ◌∷◌,
  get_elem?, ◌==◌, ==_iff, ◌⊎◌, inl, inr,
}
use quantix_cnnector_go.Value.{Libs, Error}
use quantix_cnnector_go.Driver.{Driver}
use quantix_cnnector_go.Manager.Device.{Device}
use quantix_cnnector_go.Manager.Lifecycle.{
  Manager, Store, Done, returned, blocked, for_ids, start_device, startup, get_runtime, new_handle,
}
use quantix_cnnector_go.Manager.Lifecycle.Stop.{start_device-get_runtime}

module _ (lib : Libs) {D : Type 0} (drv : Driver D) where
  module _ (f : ℕ → Manager D → Manager D × Done) where
    abbrev looped : List ℕ → Option Error → Manager D → Manager D × Done
    looped ids first m = for_ids lib drv f ids first m

    for_ids-some :
        (ids : List ℕ) (e : Error) (m : Manager D) → (looped ids (some e) m).1 ≡ returned none → ⊥
    unfolding for_ids
    for_ids-some [] e m h = cc
    for_ids-some (id ∷ ids) e m h = cases (for_ids-some ids e (f id m).0) (f id m).1 refl
      where
        cases :
            ((looped ids (some e) (f id m).0).1 ≡ returned none → ⊥)
            → (d : Done) → (f id m).1 ≡ d
            → ⊥
        cases later (returned x) r = later (rw (r, for_ids) at h)
        cases later blocked r = let bad = rw (r, for_ids) at h in cc

    -- The first call of a loop that returns no error.
    for_ids-first :
        (id : ℕ) (ids : List ℕ) (m : Manager D)
        → (looped (id ∷ ids) none m).1 ≡ returned none
        → ((f id m).1 ≡ returned none) × (looped (id ∷ ids) none m ≡ looped ids none (f id m).0)
    unfolding for_ids
    for_ids-first id ids m h = cases (f id m).1 refl
      where
        cases :
            (d : Done)
            → (f id m).1 ≡ d
            → ((f id m).1 ≡ returned none) × (looped (id ∷ ids) none m ≡ looped ids none (f id m).0)
        cases (returned none) r = (r, rw (r, for_ids) refl)
        cases (returned (some e)) r = absurd (for_ids-some ids e (f id m).0 (rw (r, for_ids) at h))
        cases blocked r = let bad = rw (r, for_ids) at h in cc

    -- What each call brings about and the others keep holds after the loop.
    module _ (P : ℕ → Manager D → Type 0)
        (brings : (id : ℕ) (m : Manager D) → (f id m).1 ≡ returned none → P id (f id m).0)
        (keeps : (id j : ℕ) (m : Manager D)
          → (f id m).1 ≡ returned none
          → P j m
          → P j (f id m).0) where
      for_ids-keeps :
          (ids : List ℕ) (m : Manager D) (j : ℕ)
          → (looped ids none m).1 ≡ returned none
          → P j m
          → P j (looped ids none m).0
      unfolding for_ids
      for_ids-keeps [] m j h p = p
      for_ids-keeps (id ∷ ids) m j h p =
          let (r, same) = for_ids-first id ids m h in
          subst (λ x. P j x.0) (sym same)
            (for_ids-keeps ids (f id m).0 j (ap (λ x. x.1) (sym same) ∙ h) (keeps id j m r p))

      for_ids-each :
          (ids : List ℕ) (m : Manager D) (j k : ℕ)
          → (looped ids none m).1 ≡ returned none
          → get_elem? ids k ≡ some j
          → P j (looped ids none m).0
      for_ids-each [] m j k h g = cc
      for_ids-each (id ∷ ids) m j zero h g =
          let (r, same) = for_ids-first id ids m h in
          let id-j : id ≡ j = cc in
          subst (λ x. P j x.0) (sym same)
            (for_ids-keeps ids (f id m).0 j (ap (λ x. x.1) (sym same) ∙ h)
              (subst (λ i. P i (f id m).0) id-j (brings id m r)))
      for_ids-each (id ∷ ids) m j (suc k) h g =
          let (r, same) = for_ids-first id ids m h in
          subst (λ x. P j x.0) (sym same)
            (for_ids-each ids (f id m).0 j k (ap (λ x. x.1) (sym same) ∙ h) g)

  module _ (late : Bool) (now : ℕ) (db : Store) (build : Device → Error ⊎ D) where
    -- A device that is loaded, with a driver that was built for it, and a new runtime of its own.
    abbrev pub Runs : ℕ → Manager D → Type 0
    Runs id m =
        (device : Device) × (driver : D) × (db.load_device id ≡ inr device)
        × (build device ≡ inr driver)
        × (get_runtime m id ≡ some (new_handle lib drv device driver))

    abbrev pub IsKeyed : Type 0
    IsKeyed = (id : ℕ) (device : Device) → db.load_device id ≡ inr device → device.id ≡ id

    started_with : ℕ → Manager D → Manager D × Done
    started_with = start_device lib drv db build late now

    module _ (keyed : IsKeyed) where
      start-loads :
          (id : ℕ) (m : Manager D)
          → (started_with id m).1 ≡ returned none
          → (device : Device) × (db.load_device id ≡ inr device)
      unfolding started_with start_device
      start-loads id m h = cases (db.load_device id) refl
        where
          cases :
              (r : Error ⊎ Device)
              → db.load_device id ≡ r
              → (device : Device) × (db.load_device id ≡ inr device)
          cases (inl e) q = let bad = rw (q, start_device) at h in cc
          cases (inr device) q = (device, q)

      start-Runs :
          (id : ℕ) (m : Manager D)
          → (started_with id m).1 ≡ returned none
          → Runs id (started_with id m).0
      unfolding started_with
      start-Runs id m h =
          let (device, q) = start-loads id m h in
          let (driver, b, rt) =
            start_device-get_runtime lib drv late now db build id id m device q (keyed id device q)
              h in
          (device, driver, q, b, rt ∙ rw ((==_iff id id).1 refl) refl)

      start-keeps :
          (id j : ℕ) (m : Manager D)
          → (started_with id m).1 ≡ returned none
          → Runs j m
          → Runs j (started_with id m).0
      unfolding started_with
      start-keeps id j m h (device, driver, q, b, rt) = elim (Bool-cases (id == j)) [
        | inl here ↦
            subst (λ i. Runs i (started_with id m).0) ((==_iff id j).0 here) (start-Runs id m h)
        | inr there ↦
            let (device', q') = start-loads id m h in
            let (driver', b', rt') =
              start_device-get_runtime lib drv late now db build id j m device' q'
                (keyed id device' q') h in
            (device, driver, q, b, rt' ∙ rw there rt)
      ]

      -- A startup that returns no error has started every enabled device: it was loaded, a driver was
      -- built for it, and it has a new runtime of its own.
      pub startup-Runs :
          (m : Manager D) (ids : List ℕ) (id k : ℕ)
          → (startup lib drv db build late now m).1 ≡ returned none
          → db.enabled_ids ≡ inr ids
          → get_elem? ids k ≡ some id
          → Runs id (startup lib drv db build late now m).0
      unfolding startup started_with
      startup-Runs m ids id k h e g =
          let h' : (for_ids lib drv started_with ids none m).1 ≡ returned none =
            sym (rw e refl) ∙ h in
          rw e (for_ids-each started_with Runs start-Runs start-keeps ids m id k h' g)
