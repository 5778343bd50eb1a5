-- ===== src/Manager/Lifecycle/Stop.antt =====
-- Which runtimes there are after a start, a stop or a shutdown (StartDevice, StopDevice, Shutdown).
use quantix_cnnector_go.Prelude.{
  ℕ, ◌≡◌, refl, Bool, true, Option, none, some, Option-cases, List, [], ◌∷◌, ◌==◌, ==_iff, ◌⊎◌, inl,
  inr, Bool-cases, arith, if◌then◌else◌,
}
use quantix_cnnector_go.Value.{Libs, Error}
use quantix_cnnector_go.Driver.{Driver}
use quantix_cnnector_go.Manager.Device.{Device}
use quantix_cnnector_go.Manager.Lifecycle.{
  Handle, Manager, Done, returned, blocked, Store, find, delete, put, get_runtime, stop_device,
  new_handle, launch, start_device,
}

module _ {D : Type 0} where
  find-delete :
      (id j : ℕ) (hs : List (Handle D))
      → find j (delete id hs) ≡ (if id == j then none else find j hs)
  unfolding find delete
  find-delete id j [] = ground arith
  find-delete id j (h ∷ hs) = ground (arith, find-delete id j hs)

  find-put :
      (h : Handle D) (j : ℕ) (hs : List (Handle D))
      → find j (put h hs) ≡ (if h.device.id == j then some h else find j hs)
  unfolding find put
  find-put h j hs = ground (arith, find-delete h.device.id j hs)

  find-id : (j : ℕ) (hs : List (Handle D)) (h : Handle D) → find j hs ≡ some h → h.device.id ≡ j
  unfolding find
  find-id j [] h e = cc
  find-id j (g ∷ hs) h e = ground (arith, find-id j hs h)

module _ (lib : Libs) {D : Type 0} (drv : Driver D) (late : Bool) (now : ℕ) where
  -- Once a stop has returned, with or without an error, the device has no runtime; every other device has
  -- the one that it had.
  pub stop_device-get_runtime :
      (id j : ℕ) (m : Manager D) (e : Option Error)
      → (stop_device lib drv late now id m).1 ≡ returned e
      → get_runtime (stop_device lib drv late now id m).0 j
        ≡ (if id == j then none else get_runtime m j)
  unfolding stop_device get_runtime
  stop_device-get_runtime id j m e h = elim (Option-cases (find id m.runtimes)) [
    | inl absent ↦ rw (absent, stop_device) (ground (arith, ==_iff id j, absent))
    | inr (g, found) ↦ elim (Bool-cases g.locked) [
      | inl locked ↦ let bad = rw (found, locked, stop_device) at h in cc
      | inr free ↦ rw (found, free, stop_device) (ground (arith, find-delete id j m.runtimes))
    ]
  ]

  module _ (db : Store) (build : Device → Error ⊎ D) where
    launch-ok :
        (device : Device) (m : Manager D)
        → (launch lib drv db build device m).1 ≡ returned none
        → (driver : D) × (build device ≡ inr driver)
          × ((launch lib drv db build device m).0.runtimes
              ≡ put (new_handle lib drv device driver) m.runtimes)
    unfolding launch
    launch-ok device m h = built (build device) refl
      where
        built :
            (r : Error ⊎ D)
            → build device ≡ r
            → (driver : D) × (build device ≡ inr driver)
              × ((launch lib drv db build device m).0.runtimes
                  ≡ put (new_handle lib drv device driver) m.runtimes)
        built (inl e) q = let bad = rw (q, launch) at h in cc
        built (inr driver) q = (driver, q, rw (q, launch) refl)

    -- A start that returns without an error has loaded the device and built a driver for it; the device
    -- then has a runtime of its own, offline and not stopping, and every other device has the one that it
    -- had. The database gives the device that it was asked for.
    pub start_device-get_runtime :
        (id j : ℕ) (m : Manager D) (device : Device)
        → db.load_device id ≡ inr device
        → device.id ≡ id
        → (start_device lib drv db build late now id m).1 ≡ returned none
        → (driver : D) × (build device ≡ inr driver)
          × (get_runtime (start_device lib drv db build late now id m).0 j
              ≡ (if id == j then some (new_handle lib drv device driver) else get_runtime m j))
    unfolding start_device get_runtime
    start_device-get_runtime id j m device q same h = elim (Bool-cases (db.has_template device)) [
      | inr missing ↦ let bad = rw (q, start_device, missing) at h in cc
      | inl template ↦ ended template (stop_device lib drv late now id m).1 refl
    ]
      where
        ended :
            db.has_template device ≡ true
            → (done : Done) → (stop_device lib drv late now id m).1 ≡ done
            → (driver : D) × (build device ≡ inr driver)
              × (get_runtime (start_device lib drv db build late now id m).0 j
                  ≡ (if id == j then some (new_handle lib drv device driver) else get_runtime m j))
        ended template blocked d = let bad = rw (q, start_device, d, template) at h in cc
        ended template (returned (some e)) d =
            let bad = rw (q, start_device, d, template) at h in cc
        ended template (returned none) d =
            let m' = (stop_device lib drv late now id m).0 in
            let launched = rw (q, start_device, d, template) at h in
            let (driver, b, rt) = launch-ok device m' launched in
            let put_there = find-put (new_handle lib drv device driver) j m'.runtimes in
            let before = stop_device-get_runtime id j m none d in
            (
              driver,
              b,
              rw (q, start_device, d, template, rt, put_there, same)
                  (elim (Bool-cases (id == j)) [
                    | inl here ↦ rw here refl
                    | inr there ↦ rw there (let then' = rw there at before in then')
                  ]),
            )
