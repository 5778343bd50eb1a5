-- ===== src/Manager/Lifecycle/Tests.antt =====
-- Runs of the starting and stopping of runtimes, of the scanner and of messages
-- (internal/service/device_manager.go).
use quantix_cnnector_go.Prelude.{ℕ, ◌≡◌, some, refl, inr, true, false, none, [], ◌∷◌, ◌⊎◌}
use quantix_cnnector_go.Prelude.Int.{pos}
use quantix_cnnector_go.Prelude.Text.{codes}
use quantix_cnnector_go.Value.{string, Error}
use quantix_cnnector_go.Value.Toy.{toy}
use quantix_cnnector_go.Executor.Step.{single}
use quantix_cnnector_go.Manager.Scanner.{nanos}
use quantix_cnnector_go.Manager.Scanner.Burst.{scan_all, scan_all-Spaced, Spaced}
use quantix_cnnector_go.Manager.Device.{Device}
use quantix_cnnector_go.Manager.Sample.{line, step_of, scale, metrics}
use quantix_cnnector_go.Manager.Lifecycle.{
  Handle, Manager, Store, find, put, delete, get_runtime, new_handle, launch, stop_device,
  start_device,
}
use quantix_cnnector_go.Manager.Lifecycle.Replaced.{Stops, start_device-Replaces}
use quantix_cnnector_go.Manager.Lifecycle.Single.{starts, here, next, AllValid, Reach-AllValid}

abbrev seven : Device
seven = scale (step_of (string (codes "read")))

abbrev eight : Device
eight = record seven { id = 8 }

abbrev handle_of : Device → Handle ℕ
handle_of device = new_handle toy (line true) device 0

abbrev empty : Manager ℕ
empty = record { runtimes = []; metrics = metrics; published = [] }

abbrev two : Manager ℕ
two = record {
  runtimes = handle_of seven ∷ handle_of eight ∷ [];
  metrics = metrics;
  published = [];
}

abbrev db : Store
db = record {
  load_device = λ id. inr (record seven { id = id });
  has_template = λ d. true;
  is_enabled = λ id. true;
  enabled_ids = inr (7 ∷ []);
}

abbrev build : Device → Error ⊎ ℕ
build device = inr 0

abbrev started : Manager ℕ
started = (start_device toy (line true) db build false 9 7 empty).0

abbrev restarted : Manager ℕ
restarted = (start_device toy (line true) db build false 9 7 started).0

Reach-AllValid_example : AllValid restarted.runtimes
Reach-AllValid_example =
    Reach-AllValid toy (line true) db build refl
      (next (next here (starts empty false 9 7)) (starts started false 9 7))

start_device-Replaces_example :
    Stops toy
      (line true)
      false
      9
      started
      (new_handle toy (line true) (record seven { id = 7 }) 0)
      restarted
    × ((driver : ℕ) × (build (record seven { id = 7 }) ≡ inr driver)
        × (get_runtime restarted 7
            ≡ some (new_handle toy (line true) (record seven { id = 7 }) driver)))
unfolding start_device stop_device find put delete launch
start_device-Replaces_example =
    start_device-Replaces toy (line true) false 9 db build 7 7 started
      (new_handle toy (line true) (record seven { id = 7 }) 0) (record seven { id = 7 }) refl refl
      refl refl

scan_all-Spaced_example :
    Spaced
      (nanos (pos 500))
      (record { last_code = []; last_at = none })
      (scan_all toy
        (pos 500)
        (record { last_code = []; last_at = none })
        ((0, single (codes "barcode") (string (codes "A")))
          ∷ (100, single (codes "barcode") (string (codes "A")))
          ∷ (600000000, single (codes "barcode") (string (codes "A")))
          ∷ []))
scan_all-Spaced_example =
    scan_all-Spaced toy (pos 500) (record { last_code = []; last_at = none })
      ((0, single (codes "barcode") (string (codes "A")))
        ∷ (100, single (codes "barcode") (string (codes "A")))
        ∷ (600000000, single (codes "barcode") (string (codes "A")))
        ∷ [])
