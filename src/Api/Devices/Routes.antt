-- ===== src/Api/Devices/Routes.antt =====
-- internal/api/devices.go: the routes of devices, the handlers by code and the list of all devices. The
-- trial of a connection, which changes nothing, is in Connection.
use quantix_cnnector_go.Prelude.{ℕ, true, false, Option, List, [], ◌∷◌, ◌⊎◌, inl, inr}
use quantix_cnnector_go.Prelude.Text.{Bytes, codes}
use quantix_cnnector_go.Value.{object, items, Items, nil, cons, Libs, ok, Error}
use quantix_cnnector_go.Value.Maps.{set}
use quantix_cnnector_go.Store.{Device}
use quantix_cnnector_go.Api.{Response, detail}
use quantix_cnnector_go.Api.Devices.{
  DeviceCreate, DeviceUpdate, ExecuteStepRequest, DeviceDb, Devices, Served, device_to_map,
  find_by_id, find_by_code, get_device, create_device, update_device, delete_device, set_enabled,
  execute_device,
}

-- A device is asked for by its id or by its code.
pub data Key : Type 0 where
  by_id by_code : Bytes → Key

pub data Request : Type 0 where
  lists : Request
  creates : Error ⊎ DeviceCreate → Request
  gets deletes enables disables : Key → Request
  updates : Key → Error ⊎ DeviceUpdate → Request
  executes : Key → Error ⊎ ExecuteStepRequest → Request

module _ (lib : Libs) {S M : Type 0} (db : DeviceDb S) (manager : Devices S M)
    (parse_uint : Bytes → Option ℕ) where
  -- RuntimeSnapshots has a message for every id that it is asked for.
  abbrev pub listed : M → List Device → Items
  listed m [] = nil
  listed m (d ∷ rows) =
      cons (object (set (device_to_map d) (codes "runtime") (object (manager.snapshot m d.id))))
        (listed m rows)

  abbrev pub answered : S × M → Error ⊎ List Device → Served lib db manager parse_uint
  answered w (inl e) = (ok (detail 500 e.text), w)
  answered w (inr rows) = (ok (record { status = 200; body = items (listed w.1 rows) }), w)

  unfoldable pub list_devices : S × M → Served lib db manager parse_uint
  unfolding device_to_map
  list_devices (s, m) = answered (s, m) (db.find s)

  unfoldable pub get_device_by_code : S × M → Bytes → Served lib db manager parse_uint
  unfolding get_device find_by_code
  get_device_by_code w code =
      get_device lib db manager parse_uint w (find_by_code lib db manager parse_uint w.0 code)

  unfoldable pub update_device_by_code :
      S × M → Bytes → Error ⊎ DeviceUpdate → Served lib db manager parse_uint
  unfolding update_device find_by_code
  update_device_by_code w code body =
      update_device lib db manager parse_uint w (find_by_code lib db manager parse_uint w.0 code)
        body

  unfoldable pub delete_device_by_code : S × M → Bytes → Served lib db manager parse_uint
  unfolding delete_device find_by_code
  delete_device_by_code w code =
      delete_device lib db manager parse_uint w (find_by_code lib db manager parse_uint w.0 code)

  unfoldable pub enable_device_by_code : S × M → Bytes → Served lib db manager parse_uint
  unfolding set_enabled find_by_code
  enable_device_by_code w code =
      set_enabled lib db manager parse_uint true w (find_by_code lib db manager parse_uint w.0 code)

  unfoldable pub disable_device_by_code : S × M → Bytes → Served lib db manager parse_uint
  unfolding set_enabled find_by_code
  disable_device_by_code w code =
      set_enabled lib db manager parse_uint false w
        (find_by_code lib db manager parse_uint w.0 code)

  unfoldable pub execute_device_by_code :
      S × M → Bytes → Error ⊎ ExecuteStepRequest → Served lib db manager parse_uint
  unfolding execute_device find_by_code
  execute_device_by_code w code body =
      execute_device lib db manager parse_uint w (find_by_code lib db manager parse_uint w.0 code)
        body

  abbrev pub row_by_id : S × M → Bytes → Response ⊎ Device
  row_by_id w param = find_by_id lib db manager parse_uint w.0 param

  unfoldable pub serve : S × M → Request → Served lib db manager parse_uint
  unfolding list_devices get_device_by_code update_device_by_code delete_device_by_code
      enable_device_by_code disable_device_by_code execute_device_by_code find_by_id create_device
  serve w lists = list_devices w
  serve w (creates body) = create_device lib db manager parse_uint w body
  serve w (gets (by_id id)) = get_device lib db manager parse_uint w (row_by_id w id)
  serve w (gets (by_code code)) = get_device_by_code w code
  serve w (updates (by_id id) body) =
      update_device lib db manager parse_uint w (row_by_id w id) body
  serve w (updates (by_code code) body) = update_device_by_code w code body
  serve w (deletes (by_id id)) = delete_device lib db manager parse_uint w (row_by_id w id)
  serve w (deletes (by_code code)) = delete_device_by_code w code
  serve w (enables (by_id id)) = set_enabled lib db manager parse_uint true w (row_by_id w id)
  serve w (enables (by_code code)) = enable_device_by_code w code
  serve w (disables (by_id id)) = set_enabled lib db manager parse_uint false w (row_by_id w id)
  serve w (disables (by_code code)) = disable_device_by_code w code
  serve w (executes (by_id id) body) =
      execute_device lib db manager parse_uint w (row_by_id w id) body
  serve w (executes (by_code code) body) = execute_device_by_code w code body

  -- The database and the manager after these requests.
  abbrev pub serve_all : S × M → List Request → S × M
  serve_all w [] = w
  serve_all w (r ∷ requests) = serve_all (serve w r).1 requests
