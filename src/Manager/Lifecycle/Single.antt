-- ===== src/Manager/Lifecycle/Single.antt =====
-- What holds of the runtimes after any history of starts, stops and reloads.
use quantix_cnnector_go.Prelude.{
  ℕ, ◌≡◌, refl, subst, Bool, true, false, Option, none, some, Option-cases, List, [], ◌∷◌, ◌==◌,
  ◌⊎◌, inl, inr, Bool-cases, arith, if◌then◌else◌,
}
use quantix_cnnector_go.Value.{Fields, Libs, Error}
use quantix_cnnector_go.Driver.{Driver}
use quantix_cnnector_go.Metrics.{RuntimeMetrics}
use quantix_cnnector_go.Manager.Device.{Device}
use quantix_cnnector_go.Manager.Lifecycle.{
  Handle, Manager, Done, returned, blocked, Store, find, delete, put, begin_stop, stop_device,
  new_handle, launch, start_device, reload_device,
}

module _ {D : Type 0} where
  abbrev pub Lacks : ℕ → List (Handle D) → Type 0
  Lacks id [] = Unit {0}
  Lacks id (h ∷ hs) = ((h.device.id == id) ≡ false) × Lacks id hs

  -- stopCh is closed once the runtime is stopping, and not before.
  abbrev pub ClosesOnce : Handle D → Type 0
  ClosesOnce h = h.closes ≡ (if h.stopping then 1 else 0)

  abbrev pub AllValid : List (Handle D) → Type 0
  AllValid [] = Unit {0}
  AllValid (h ∷ hs) = ClosesOnce h × Lacks h.device.id hs × AllValid hs

  delete-Lacks : (id j : ℕ) (hs : List (Handle D)) → Lacks j hs → Lacks j (delete id hs)
  unfolding delete
  delete-Lacks id j [] l = tt
  delete-Lacks id j (h ∷ hs) l = elim (Bool-cases (h.device.id == id)) [
    | inl e ↦ rw e (delete-Lacks id j hs l.1)
    | inr e ↦ rw e (l.0, delete-Lacks id j hs l.1)
  ]

  delete-gone : (id : ℕ) (hs : List (Handle D)) → Lacks id (delete id hs)
  unfolding delete
  delete-gone id [] = tt
  delete-gone id (h ∷ hs) = elim (Bool-cases (h.device.id == id)) [
    | inl e ↦ rw e (delete-gone id hs)
    | inr e ↦ rw e (e, delete-gone id hs)
  ]

  delete-AllValid : (id : ℕ) (hs : List (Handle D)) → AllValid hs → AllValid (delete id hs)
  unfolding delete
  delete-AllValid id [] v = tt
  delete-AllValid id (h ∷ hs) v = elim (Bool-cases (h.device.id == id)) [
    | inl e ↦ rw e (delete-AllValid id hs v.2)
    | inr e ↦ rw e (v.0, delete-Lacks id h.device.id hs v.1, delete-AllValid id hs v.2)
  ]

  put-AllValid :
      (h : Handle D) (hs : List (Handle D)) → ClosesOnce h → AllValid hs → AllValid (put h hs)
  unfolding put
  put-AllValid h hs c v = (c, delete-gone h.device.id hs, delete-AllValid h.device.id hs v)

  abbrev Holds : Option (Handle D) → Type 0
  Holds none = Unit {0}
  Holds (some h) = ClosesOnce h

  find-ClosesOnce :
      (id : ℕ) (hs : List (Handle D)) (h : Handle D)
      → AllValid hs
      → find id hs ≡ some h
      → ClosesOnce h
  unfolding find
  find-ClosesOnce id [] h v e = cc
  find-ClosesOnce id (g ∷ hs) h v e = elim (Bool-cases (g.device.id == id)) [
    | inl here ↦ subst (λ o. Holds o) (rw here at e) v.0
    | inr there ↦ find-ClosesOnce id hs h v.2 (rw there at e)
  ]

  begin_stop-ClosesOnce : (h : Handle D) → ClosesOnce h → ClosesOnce (begin_stop h)
  unfolding begin_stop
  begin_stop-ClosesOnce h c = ground arith

module _ (lib : Libs) {D : Type 0} (drv : Driver D) (db : Store) (build : Device → Error ⊎ D) where
  -- A call of the manager, a stop that a panic of the driver cuts short, or whatever a runtime does by itself:
  -- that changes neither its device nor whether it is stopping.
  pub data Step : Manager D → Manager D → Type 0 where
    starts :
        (m : Manager D) (late : Bool) (now id : ℕ)
        → Step m (start_device lib drv db build late now id m).0
    stops :
        (m : Manager D) (late : Bool) (now id : ℕ) → Step m (stop_device lib drv late now id m).0
    reloads :
        (m : Manager D) (late : Bool) (now id : ℕ)
        → Step m (reload_device lib drv db build late now id m).0
    breaks_off :
        (m : Manager D) (id : ℕ) (h : Handle D)
        → find id m.runtimes ≡ some h
        → Step m (record m { runtimes = put (begin_stop h) m.runtimes })
    runs :
        (m : Manager D) (id : ℕ) (h h' : Handle D) (metrics : RuntimeMetrics)
        (published : List Fields)
        → find id m.runtimes ≡ some h
        → h'.stopping ≡ h.stopping
        → h'.closes ≡ h.closes
        → Step m (record { runtimes = put h' m.runtimes; metrics = metrics; published = published })

  pub data Reach (s : Manager D) : Manager D → Type 0 where
    here : Reach s s
    next : {m m' : Manager D} → Reach s m → Step m m' → Reach s m'

  stop_device-AllValid :
      (late : Bool) (now id : ℕ) (m : Manager D)
      → AllValid m.runtimes
      → AllValid (stop_device lib drv late now id m).0.runtimes
  unfolding stop_device
  stop_device-AllValid late now id m v = elim (Option-cases (find id m.runtimes)) [
    | inl absent ↦ rw (absent, stop_device) v
    | inr (h, found) ↦ elim (Bool-cases h.locked) [
      | inl locked ↦
          rw (found, locked, stop_device)
            (put-AllValid (record (begin_stop h) { driver = drv.disconnect (begin_stop h).driver })
              m.runtimes (begin_stop-ClosesOnce h (find-ClosesOnce id m.runtimes h v found)) v)
      | inr free ↦ rw (found, free, stop_device) (delete-AllValid id m.runtimes v)
    ]
  ]

  launch-AllValid :
      (device : Device) (m : Manager D)
      → AllValid m.runtimes
      → AllValid (launch lib drv db build device m).0.runtimes
  unfolding launch
  launch-AllValid device m v = built (build device) refl
    where
      built :
          (r : Error ⊎ D)
          → build device ≡ r
          → AllValid (launch lib drv db build device m).0.runtimes
      built (inl e) q = rw (q, launch) v
      built (inr driver) q =
          rw (q, launch) (put-AllValid (new_handle lib drv device driver) m.runtimes refl v)

  start_device-AllValid :
      (late : Bool) (now id : ℕ) (m : Manager D)
      → AllValid m.runtimes
      → AllValid (start_device lib drv db build late now id m).0.runtimes
  unfolding start_device
  start_device-AllValid late now id m v = loaded (db.load_device id) refl
    where
      stopped : AllValid (stop_device lib drv late now id m).0.runtimes
      stopped = stop_device-AllValid late now id m v

      ended :
          (device : Device)
          → db.load_device id ≡ inr device
          → db.has_template device ≡ true
          → (done : Done) → (stop_device lib drv late now id m).1 ≡ done
          → AllValid (start_device lib drv db build late now id m).0.runtimes
      ended device q t blocked d = rw (q, start_device, d, t) stopped
      ended device q t (returned (some e)) d = rw (q, start_device, d, t) stopped
      ended device q t (returned none) d =
          rw (q, start_device, d, t)
            (launch-AllValid device (stop_device lib drv late now id m).0 stopped)

      loaded :
          (r : Error ⊎ Device)
          → db.load_device id ≡ r
          → AllValid (start_device lib drv db build late now id m).0.runtimes
      loaded (inl e) q = rw (q, start_device) v
      loaded (inr device) q = elim (Bool-cases (db.has_template device)) [
        | inl t ↦ ended device q t (stop_device lib drv late now id m).1 refl
        | inr t ↦ rw (q, start_device, t) v
      ]

  reload_device-AllValid :
      (late : Bool) (now id : ℕ) (m : Manager D)
      → AllValid m.runtimes
      → AllValid (reload_device lib drv db build late now id m).0.runtimes
  unfolding reload_device
  reload_device-AllValid late now id m v = loaded (db.load_device id) refl
    where
      loaded :
          (r : Error ⊎ Device)
          → db.load_device id ≡ r
          → AllValid (reload_device lib drv db build late now id m).0.runtimes
      loaded (inl e) q = rw (q, reload_device) (stop_device-AllValid late now id m v)
      loaded (inr device) q = elim (Bool-cases (db.is_enabled id)) [
        | inl enabled ↦ rw (q, reload_device, enabled) (start_device-AllValid late now id m v)
        | inr disabled ↦ rw (q, reload_device, disabled) (stop_device-AllValid late now id m v)
      ]

  Step-AllValid : {m m' : Manager D} → Step m m' → AllValid m.runtimes → AllValid m'.runtimes
  Step-AllValid (starts m late now id) v = start_device-AllValid late now id m v
  Step-AllValid (stops m late now id) v = stop_device-AllValid late now id m v
  Step-AllValid (reloads m late now id) v = reload_device-AllValid late now id m v
  Step-AllValid (breaks_off m id h found) v =
      put-AllValid (begin_stop h) m.runtimes
        (begin_stop-ClosesOnce h (find-ClosesOnce id m.runtimes h v found)) v
  Step-AllValid (runs m id h h' metrics published found same closes) v =
      let old = find-ClosesOnce id m.runtimes h v found in
      put-AllValid h' m.runtimes (ground arith) v

  -- After any history of starts, stops, reloads, stops that a panic cuts short and the work of the runtimes
  -- the manager tracks at most one runtime for each device, and the channel that stops a tracked runtime has
  -- been closed once if it is stopping and never otherwise: a stop that is tried again does not close it a
  -- second time, which would panic. Of a runtime that the manager tracks no more nothing is said.
  pub Reach-AllValid : {s m : Manager D} → s.runtimes ≡ [] → Reach s m → AllValid m.runtimes
  Reach-AllValid empty here = rw empty tt
  Reach-AllValid empty (next r step) = Step-AllValid step (Reach-AllValid empty r)
