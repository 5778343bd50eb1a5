-- ===== src/Manager/Lifecycle/Replaced.antt =====
-- A start over a runtime that the manager tracks (internal/service/device_manager.go: StartDevice).
use quantix_cnnector_go.Prelude.{
  ℕ, ◌≡◌, refl, ◌∙◌, Bool, true, false, none, some, Bool-cases, [], ◌∷◌, ◌++◌, ◌==◌, ◌⊎◌, inl, inr,
  if◌then◌else◌,
}
use quantix_cnnector_go.Prelude.Text.{codes}
use quantix_cnnector_go.Value.{Libs, Error}
use quantix_cnnector_go.Driver.{Driver}
use quantix_cnnector_go.Runtime.{to_message, mark_offline}
use quantix_cnnector_go.Manager.Device.{Device}
use quantix_cnnector_go.Manager.Lifecycle.{
  Handle, Manager, Done, returned, blocked, Store, find, get_runtime, stop_device, new_handle,
  launch, start_device,
}
use quantix_cnnector_go.Manager.Lifecycle.Stop.{start_device-get_runtime}

module _ (lib : Libs) {D : Type 0} (drv : Driver D) (late : Bool) (now : ℕ) where
  -- The old runtime h was stopped: nobody held its lock, it ended in time, and it was told of as stopped,
  -- which is the only message.
  pub record Stops (m : Manager D) (h : Handle D) (m' : Manager D) : Type 0 where
    pub free : h.locked ≡ false
    pub in_time : late ≡ false
    pub tells :
        m'.published
        ≡ m.published ++ (to_message lib (mark_offline now h.state (codes "stopped")) ∷ [])

  stop_device-Stops :
      (id : ℕ) (m : Manager D) (h : Handle D)
      → find id m.runtimes ≡ some h
      → (stop_device lib drv late now id m).1 ≡ returned none
      → Stops m h (stop_device lib drv late now id m).0
  unfolding stop_device
  stop_device-Stops id m h f r = elim (Bool-cases h.locked) [
    | inl locked ↦ let bad = rw (f, stop_device, locked) at r in cc
    | inr free ↦ elim (Bool-cases late) [
      | inl slow ↦ let bad = rw (f, stop_device, free, slow) at r in cc
      | inr quick ↦ record { free = free; in_time = quick; tells = rw (f, stop_device, free) refl }
    ]
  ]

  module _ (db : Store) (build : Device → Error ⊎ D) where
    launch-published :
        (device : Device) (m : Manager D)
        → (launch lib drv db build device m).0.published ≡ m.published
    unfolding launch
    launch-published device m = built (build device) refl
      where
        built :
            (r : Error ⊎ D)
            → build device ≡ r
            → (launch lib drv db build device m).0.published ≡ m.published
        built (inl e) q = rw (q, launch) refl
        built (inr driver) q = rw (q, launch) refl

    start_device-Stops :
        (id : ℕ) (m : Manager D) (h : Handle D) (device : Device)
        → db.load_device id ≡ inr device
        → find id m.runtimes ≡ some h
        → (start_device lib drv db build late now id m).1 ≡ returned none
        → Stops m h (start_device lib drv db build late now id m).0
    unfolding start_device
    start_device-Stops id m h device q f r = elim (Bool-cases (db.has_template device)) [
      | inr missing ↦ let bad = rw (q, start_device, missing) at r in cc
      | inl template ↦ ended template (stop_device lib drv late now id m).1 refl
    ]
      where
        ended :
            db.has_template device ≡ true
            → (done : Done) → (stop_device lib drv late now id m).1 ≡ done
            → Stops m h (start_device lib drv db build late now id m).0
        ended template blocked d = let bad = rw (q, start_device, d, template) at r in cc
        ended template (returned (some e)) d =
            let bad = rw (q, start_device, d, template) at r in cc
        ended template (returned none) d =
            let s = stop_device-Stops id m h f d in
            record {
              free = s.free;
              in_time = s.in_time;
              tells =
                  rw (q, start_device, d, template)
                    (launch-published device (stop_device lib drv late now id m).0 ∙ s.tells);
            }

    -- A start that returns without an error, of a device whose runtime the manager tracks, has stopped
    -- that runtime before: nobody held its lock, it ended in time, and it was published as stopped. The
    -- device then has a new runtime with a driver that was built for it, and every other device the one
    -- that it had. The database gives the device that it was asked for.
    pub start_device-Replaces :
        (id j : ℕ) (m : Manager D) (h : Handle D) (device : Device)
        → db.load_device id ≡ inr device
        → device.id ≡ id
        → find id m.runtimes ≡ some h
        → (start_device lib drv db build late now id m).1 ≡ returned none
        → Stops m h (start_device lib drv db build late now id m).0
          × ((driver : D) × (build device ≡ inr driver)
              × (get_runtime (start_device lib drv db build late now id m).0 j
                  ≡ (if id == j then some (new_handle lib drv device driver) else get_runtime m j)))
    start_device-Replaces id j m h device q same f r = (
      start_device-Stops id m h device q f r,
      start_device-get_runtime lib drv late now db build id j m device q same r,
    )
