-- ===== src/Manager/Lifecycle.antt =====
-- internal/service/device_manager.go: starting and stopping the runtimes of the devices (StartDevice,
-- StopDevice, ReloadDevice, Startup, Shutdown) and what the manager tells of them (GetRuntime,
-- RuntimeSnapshot, HealthSnapshot). lifeMu lets one of these run at a time. The database, the building
-- of drivers and whether a runtime ends in time are parameters.
mod Tests
pub mod Stop
pub mod Single
pub mod Shutdown
pub mod Startup
pub mod Replaced
use quantix_cnnector_go.Prelude.{
  ℕ, suc, ◌+◌, Bool, true, false, ◌||◌, Option, none, some, List, [], ◌∷◌, ◌++◌, map, length, ltb,
  ◌==◌, ◌⊎◌, inl, inr, if◌then◌else◌,
}
use quantix_cnnector_go.Prelude.Text.{Bytes, codes, eq_bytes, decimal}
use quantix_cnnector_go.Value.{Fields, Libs, Error, errorf}
use quantix_cnnector_go.Driver.{Driver}
use quantix_cnnector_go.Metrics.{RuntimeMetrics, inc_published_event}
use quantix_cnnector_go.Runtime.{RuntimeState, new_runtime_state, to_message, mark_offline}
use quantix_cnnector_go.Manager.Units.{normalize_category, offline_runtime_message}
use quantix_cnnector_go.Manager.Device.{Device}

-- A runtime in the manager's map. `closes` counts the calls of close(stopCh), of which a second one
-- panics; `locked` says that ioMu is held by a goroutine that is gone.
pub record Handle (D : Type 0) : Type 0 where
  pub device : Device
  pub driver : D
  pub state : RuntimeState
  pub canceled : Bool
  pub stopping : Bool
  pub closes : ℕ
  pub locked : Bool

pub record Manager (D : Type 0) : Type 0 where
  pub runtimes : List (Handle D)
  pub metrics : RuntimeMetrics
  pub published : List Fields

-- What a call comes to: it returns with or without an error, or blocks on ioMu.
pub data Done : Type 0 where
  returned : Option Error → Done
  blocked : Done

pub record Store : Type 0 where
  pub load_device : ℕ → Error ⊎ Device
  pub has_template : Device → Bool
  pub is_enabled : ℕ → Bool
  -- The enabled devices, as Startup finds them.
  pub enabled_ids : Error ⊎ List ℕ

module _ {D : Type 0} where
  -- m.runtimes[id], and delete(m.runtimes, id)
  unfoldable pub find : ℕ → List (Handle D) → Option (Handle D)
  find id [] = none
  find id (h ∷ hs) = if h.device.id == id then some h else find id hs

  unfoldable pub delete : ℕ → List (Handle D) → List (Handle D)
  delete id [] = []
  delete id (h ∷ hs) = let rest = delete id hs in if h.device.id == id then rest else h ∷ rest

  -- m.runtimes[rt.device.ID] = rt
  unfoldable pub put : Handle D → List (Handle D) → List (Handle D)
  unfolding delete
  put h hs = h ∷ delete h.device.id hs

  -- rt.stopping = true, then cancel and close(stopCh) if it was not yet
  unfoldable pub begin_stop : Handle D → Handle D
  begin_stop h = record h {
    canceled = true;
    stopping = true;
    closes = if h.stopping then h.closes else suc h.closes;
  }

  abbrev live : Option (Handle D) → Option (Handle D)
  live none = none
  live (some h) = if h.stopping then none else some h

  unfoldable pub get_runtime : Manager D → ℕ → Option (Handle D)
  unfolding find
  get_runtime m id = live (find id m.runtimes)

abbrev pub stop_timeout : ℕ → Error
stop_timeout id = errorf (codes "device runtime stop timeout: device_id=" ++ decimal id)

abbrev pub missing_template : ℕ → Error
missing_template id = errorf (codes "missing protocol template for device_id=" ++ decimal id)

module _ (lib : Libs) {D : Type 0} (drv : Driver D) where
  abbrev pub stopped : ℕ → Handle D → RuntimeState
  stopped now h = mark_offline now h.state (codes "stopped")

  -- stopDeviceLocked, which StopDevice and RemoveDevice call under lifeMu: `late` says that doneCh does not
  -- close within two seconds.
  unfoldable pub stop_device : Bool → ℕ → ℕ → Manager D → Manager D × Done
  unfolding find put begin_stop delete
  stop_device late now id m = elim (find id m.runtimes) [
    | none ↦ (m, returned none)
    | some h ↦
        let h' = begin_stop h in
        let h'' = record h' { driver = drv.disconnect h'.driver } in
        if h.locked then (record m { runtimes = put h'' m.runtimes }, blocked) else (
          record {
            runtimes = delete id m.runtimes;
            metrics = inc_published_event m.metrics;
            published = m.published ++ (to_message lib (stopped now h'') ∷ []);
          },
          returned (if late then some (stop_timeout id) else none),
        )
  ]

  abbrev pub new_handle : Device → D → Handle D
  new_handle device driver = record {
    device = device;
    driver = driver;
    state =
        new_runtime_state device.id device.name device.device_code
          (normalize_category device.category);
    canceled = false;
    stopping = false;
    closes = 0;
    locked = false;
  }

  module _ (db : Store) (build : Device → Error ⊎ D) where
    -- The rest of StartDevice after the old runtime has stopped.
    unfoldable pub launch : Device → Manager D → Manager D × Done
    unfolding put
    launch device m = elim (build device) [
      | inr driver ↦
          (record m { runtimes = put (new_handle device driver) m.runtimes }, returned none)
      | inl e ↦ (m, returned (some e))
    ]

    unfoldable pub start_device : Bool → ℕ → ℕ → Manager D → Manager D × Done
    unfolding launch stop_device
    start_device late now id m = elim (db.load_device id) [
      | inl e ↦ (m, returned (some e))
      | inr device ↦
          let (m', done) = stop_device late now id m in
          let next : Manager D × Done = elim done [
            | blocked ↦ (m', blocked)
            | returned (some e) ↦ (m', returned (some e))
            | returned none ↦ launch device m'
          ] in
          if db.has_template device then next else (m, returned (some (missing_template id)))
    ]

    unfoldable pub reload_device : Bool → ℕ → ℕ → Manager D → Manager D × Done
    unfolding start_device stop_device
    reload_device late now id m = elim (db.load_device id) [
      | inr device ↦
          if db.is_enabled id then start_device late now id m else stop_device late now id m
      | inl e ↦ stop_device late now id m
    ]

  abbrev first_error : Option Error → Option Error → Option Error
  first_error none e = e
  first_error (some e) _ = some e

  abbrev pub ids_of : List (Handle D) → List ℕ
  ids_of = map (λ h. h.device.id)

  -- One call for each id, in turn; the first error is returned.
  unfoldable pub for_ids :
      (ℕ → Manager D → Manager D × Done) → List ℕ → Option Error → Manager D → Manager D × Done
  for_ids f [] first m = (m, returned first)
  for_ids f (id ∷ ids) first m =
      let (m', done) = f id m in
      let go = λ (e : Option Error). for_ids f ids (first_error first e) m' in
      elim done [ returned e ↦ go e | blocked ↦ (m', blocked) ]

  unfoldable pub shutdown : Bool → ℕ → Manager D → Manager D × Done
  unfolding for_ids stop_device
  shutdown late now m = for_ids (stop_device late now) (ids_of m.runtimes) none m

  unfoldable pub startup : Store → (Device → Error ⊎ D) → Bool → ℕ → Manager D → Manager D × Done
  unfolding for_ids start_device
  startup db build late now m = elim db.enabled_ids [
    | inl e ↦ (m, returned (some e))
    | inr ids ↦ for_ids (start_device db build late now) ids none m
  ]

  -- RuntimeSnapshot; it blocks where ioMu is locked.
  unfoldable pub runtime_snapshot : Manager D → ℕ → Option Fields
  unfolding get_runtime
  runtime_snapshot m id = elim (get_runtime m id) [
    | none ↦ some offline_runtime_message
    | some h ↦ if h.locked then none else some (to_message lib h.state)
  ]

-- HealthSnapshot: the numbers of runtimes that are online, offline and in error, and the verdict.
unfoldable pub tally : Bytes → List Bytes → ℕ
tally status [] = 0
tally status (s ∷ ss) = let n = tally status ss in if eq_bytes s status then suc n else n

unfoldable pub count_offline : List Bytes → ℕ
count_offline [] = 0
count_offline (s ∷ ss) =
    let n = count_offline ss in
    if eq_bytes s (codes "online") then n else if eq_bytes s (codes "error") then n else suc n

pub record Health : Type 0 where
  pub status : Bytes
  pub runtime_count : ℕ
  pub online_count : ℕ
  pub offline_count : ℕ
  pub error_count : ℕ

unfoldable pub health_snapshot : {D : Type 0} → Manager D → ℕ → Health
unfolding tally count_offline
health_snapshot m dropped =
    let statuses = map (λ h. h.state.status) m.runtimes in
    let errors = tally (codes "error") statuses in
    record {
      status = if ltb 0 errors || ltb 0 dropped then codes "degraded" else codes "ok";
      runtime_count = length m.runtimes;
      online_count = tally (codes "online") statuses;
      offline_count = count_offline statuses;
      error_count = errors;
    }
