-- ===== src/Api/Devices/Stored.antt =====
-- The devices of the database while requests for devices are served (internal/api/devices.go).
use quantix_cnnector_go.Prelude.{
  ℕ, Bool, true, false, Bool-cases, Option, List, [], ◌∷◌, ◌⊎◌, inl, inr,
}
use quantix_cnnector_go.Prelude.Text.{Bytes}
use quantix_cnnector_go.Value.{Fields, Libs, Result, ok, err, panic, Error}
use quantix_cnnector_go.Store.{Device}
use quantix_cnnector_go.Api.{Response}
use quantix_cnnector_go.Api.Devices.{
  DeviceCreate, DeviceUpdate, ExecuteStepRequest, DeviceDb, Devices, Served, created_device,
  changed_device, on_device, stored, created, changed_to, row_or, executed, get_device,
  create_device, update_device_row, update_device, delete_device, set_enabled, execute_device_row,
  execute_device,
}
use quantix_cnnector_go.Api.Devices.Coded.{
  IsCoded, Holds, created_device-IsCoded, changed_device-IsCoded,
}
use quantix_cnnector_go.Api.Devices.Routes.{
  by_id, by_code, Request, lists, creates, gets, updates, deletes, enables, disables, executes,
  answered, list_devices, get_device_by_code, update_device_by_code, delete_device_by_code,
  enable_device_by_code, disable_device_by_code, execute_device_by_code, serve, serve_all,
}
use quantix_cnnector_go.Api.Devices.Rows.{
  IsStore, AllCoded, create-AllCoded, save-AllCoded, find_by_id-Holds, find_by_code-Holds,
}

module _ (lib : Libs) {S M : Type 0} (db : DeviceDb S) (manager : Devices S M)
    (parse_uint : Bytes → Option ℕ) (law : IsStore db) where
  on_device-AllCoded :
      (w : S × M) (row : Response ⊎ Device) (act : Device → Served lib db manager parse_uint)
      → AllCoded db w.0
      → Holds IsCoded row
      → ((d : Device) → IsCoded d → AllCoded db (act d).1.0)
      → AllCoded db (on_device lib db manager parse_uint w row act).1.0
  on_device-AllCoded w (inl r) act all h k = all
  on_device-AllCoded w (inr d) act all h k = k d h

  stored-AllCoded :
      (m : M) (r : (Error ⊎ Device) × S)
      → AllCoded db r.1
      → AllCoded db (stored lib db manager parse_uint m r).1.0
  stored-AllCoded m (inl e, s) all = all
  stored-AllCoded m (inr d, s) all = all

  created-AllCoded :
      (w : S × M) (d : Response ⊎ Device)
      → AllCoded db w.0
      → Holds IsCoded d
      → AllCoded db (created lib db manager parse_uint w d).1.0
  created-AllCoded w (inl r) all h = all
  created-AllCoded (s, m) (inr d) all h =
      stored-AllCoded m (db.create s d) (create-AllCoded lib db manager parse_uint law s d h all)

  changed_to-AllCoded :
      (w : S × M) (d : Response ⊎ Device)
      → AllCoded db w.0
      → Holds IsCoded d
      → AllCoded db (changed_to lib db manager parse_uint w d).1.0
  changed_to-AllCoded w (inl r) all h = all
  changed_to-AllCoded (s, m) (inr d) all h =
      stored-AllCoded m (db.save s d) (save-AllCoded lib db manager parse_uint law s d h all)

  create_device-AllCoded :
      (w : S × M) (body : Error ⊎ DeviceCreate)
      → AllCoded db w.0
      → AllCoded db (create_device lib db manager parse_uint w body).1.0
  unfolding create_device
  create_device-AllCoded w (inl e) all = all
  create_device-AllCoded (s, m) (inr req) all =
      created-AllCoded (s, m) (created_device lib (db.has_template s) req) all
        (created_device-IsCoded lib (db.has_template s) req)

  update_row-AllCoded :
      (w : S × M) (body : Error ⊎ DeviceUpdate) (d : Device)
      → AllCoded db w.0
      → IsCoded d
      → AllCoded db (update_device_row lib db manager parse_uint w body d).1.0
  unfolding update_device_row
  update_row-AllCoded w (inl e) d all c = all
  update_row-AllCoded (s, m) (inr req) d all c =
      changed_to-AllCoded (s, m) (changed_device lib (db.has_template s) req d) all
        (changed_device-IsCoded lib (db.has_template s) req d c)

  update_device-AllCoded :
      (w : S × M) (row : Response ⊎ Device) (body : Error ⊎ DeviceUpdate)
      → AllCoded db w.0
      → Holds IsCoded row
      → AllCoded db (update_device lib db manager parse_uint w row body).1.0
  unfolding update_device
  update_device-AllCoded w row body all h =
      on_device-AllCoded w row (update_device_row lib db manager parse_uint w body) all h
        (λ d c. update_row-AllCoded w body d all c)

  delete_device-AllCoded :
      (w : S × M) (row : Response ⊎ Device)
      → AllCoded db w.0
      → Holds IsCoded row
      → AllCoded db (delete_device lib db manager parse_uint w row).1.0
  unfolding delete_device
  delete_device-AllCoded (s, m) row all h =
      on_device-AllCoded (s, m) row _ all h (λ d c i r e. all i r (law.erases s d.id i r e))

  row_or-AllCoded :
      (d : Device) (r : (Error ⊎ Device) × S)
      → AllCoded db r.1
      → AllCoded db (row_or lib db manager parse_uint d r).1
  row_or-AllCoded d (inl e, s) all = all
  row_or-AllCoded d (inr d', s) all = all

  set_enabled-AllCoded :
      (on : Bool) (w : S × M) (row : Response ⊎ Device)
      → AllCoded db w.0
      → Holds IsCoded row
      → AllCoded db (set_enabled lib db manager parse_uint on w row).1.0
  unfolding set_enabled
  set_enabled-AllCoded on (s, m) row all h =
      on_device-AllCoded (s, m) row _ all h
        (λ d c.
          let d' : Device = record d { enabled = on } in
          row_or-AllCoded d' (db.save s d') (
            save-AllCoded lib db manager parse_uint law s d'
              (record { coded = c.coded; sorted = c.sorted }) all))

  get_device-AllCoded :
      (w : S × M) (row : Response ⊎ Device)
      → AllCoded db w.0
      → Holds IsCoded row
      → AllCoded db (get_device lib db manager parse_uint w row).1.0
  unfolding get_device
  get_device-AllCoded (s, m) row all h = on_device-AllCoded (s, m) row _ all h (λ d c. all)

  executed-AllCoded :
      (s : S) (r : Result Fields × M)
      → AllCoded db s
      → AllCoded db (executed lib db manager parse_uint s r).1.0
  executed-AllCoded s (ok x, m) all = all
  executed-AllCoded s (err e, m) all = all
  executed-AllCoded s (panic, m) all = all

  execute_row-AllCoded :
      (w : S × M) (body : Error ⊎ ExecuteStepRequest) (d : Device)
      → AllCoded db w.0
      → AllCoded db (execute_device_row lib db manager parse_uint w body d).1.0
  unfolding execute_device_row
  execute_row-AllCoded w (inl e) d all = all
  execute_row-AllCoded (s, m) (inr req) d all = elim (Bool-cases d.enabled) [
    | inl e ↦ rw e (executed-AllCoded s (manager.execute m d.id req.step_id req.params) all)
    | inr e ↦ rw e all
  ]

  execute_device-AllCoded :
      (w : S × M) (row : Response ⊎ Device) (body : Error ⊎ ExecuteStepRequest)
      → AllCoded db w.0
      → Holds IsCoded row
      → AllCoded db (execute_device lib db manager parse_uint w row body).1.0
  unfolding execute_device
  execute_device-AllCoded w row body all h =
      on_device-AllCoded w row (execute_device_row lib db manager parse_uint w body) all h
        (λ d c. execute_row-AllCoded w body d all)

  answered-AllCoded :
      (w : S × M) (r : Error ⊎ List Device)
      → AllCoded db w.0
      → AllCoded db (answered lib db manager parse_uint w r).1.0
  answered-AllCoded w (inl e) all = all
  answered-AllCoded w (inr rows) all = all

  serve-AllCoded :
      (w : S × M) (r : Request)
      → AllCoded db w.0
      → AllCoded db (serve lib db manager parse_uint w r).1.0
  unfolding serve list_devices get_device_by_code update_device_by_code delete_device_by_code
      enable_device_by_code disable_device_by_code execute_device_by_code
  serve-AllCoded (s, m) lists all = answered-AllCoded (s, m) (db.find s) all
  serve-AllCoded w (creates body) all = create_device-AllCoded w body all
  serve-AllCoded w (gets (by_id id)) all =
      get_device-AllCoded w _ all (find_by_id-Holds lib db manager parse_uint law w.0 id all)
  serve-AllCoded w (gets (by_code c)) all =
      get_device-AllCoded w _ all (find_by_code-Holds lib db manager parse_uint law w.0 c all)
  serve-AllCoded w (updates (by_id id) body) all =
      update_device-AllCoded w _ body all
        (find_by_id-Holds lib db manager parse_uint law w.0 id all)
  serve-AllCoded w (updates (by_code c) body) all =
      update_device-AllCoded w _ body all
        (find_by_code-Holds lib db manager parse_uint law w.0 c all)
  serve-AllCoded w (deletes (by_id id)) all =
      delete_device-AllCoded w _ all (find_by_id-Holds lib db manager parse_uint law w.0 id all)
  serve-AllCoded w (deletes (by_code c)) all =
      delete_device-AllCoded w _ all (find_by_code-Holds lib db manager parse_uint law w.0 c all)
  serve-AllCoded w (enables (by_id id)) all =
      set_enabled-AllCoded true w _ all (find_by_id-Holds lib db manager parse_uint law w.0 id all)
  serve-AllCoded w (enables (by_code c)) all =
      set_enabled-AllCoded true w _ all (find_by_code-Holds lib db manager parse_uint law w.0 c all)
  serve-AllCoded w (disables (by_id id)) all =
      set_enabled-AllCoded false w _ all (find_by_id-Holds lib db manager parse_uint law w.0 id all)
  serve-AllCoded w (disables (by_code c)) all =
      set_enabled-AllCoded false w _ all
        (find_by_code-Holds lib db manager parse_uint law w.0 c all)
  serve-AllCoded w (executes (by_id id) body) all =
      execute_device-AllCoded w _ body all
        (find_by_id-Holds lib db manager parse_uint law w.0 id all)
  serve-AllCoded w (executes (by_code c) body) all =
      execute_device-AllCoded w _ body all
        (find_by_code-Holds lib db manager parse_uint law w.0 c all)

  -- If every device of the database has a code of the form that the pattern allows and a known
  -- category, so it is after any requests for devices, in any order, whether they are answered, refused
  -- or fail. A row that the database has after a write was there before or is the one that was written.
  pub serve_all-AllCoded :
      (w : S × M) (requests : List Request)
      → AllCoded db w.0
      → AllCoded db (serve_all lib db manager parse_uint w requests).0
  serve_all-AllCoded w [] all = all
  serve_all-AllCoded w (r ∷ requests) all =
      serve_all-AllCoded (serve lib db manager parse_uint w r).1 requests (serve-AllCoded w r all)
