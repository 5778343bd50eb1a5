-- ===== src/Main/Tests.antt =====
-- A server with one device that starts (cmd/server/main.go).
use quantix_cnnector_go.Prelude.{ℕ, ◌≡◌, refl, ap, sym, inl, inr, true, false, some, [], ◌∷◌, ◌⊎◌}
use quantix_cnnector_go.Prelude.Int.{pos}
use quantix_cnnector_go.Prelude.Text.{codes}
use quantix_cnnector_go.Value.{string, Error}
use quantix_cnnector_go.Value.Toy.{toy}
use quantix_cnnector_go.Config.{Settings}
use quantix_cnnector_go.Config.Store.{no_settings}
use quantix_cnnector_go.Manager.Device.{Device}
use quantix_cnnector_go.Manager.Sample.{line, step_of, scale, metrics}
use quantix_cnnector_go.Manager.Lifecycle.{Manager, Store, startup, start_device, stop_device}
use quantix_cnnector_go.Manager.Lifecycle.Startup.{Runs}
use quantix_cnnector_go.PrintAgent.{PrintAgentService, normalize_agent_cfg, make_chan}
use quantix_cnnector_go.PrintAgent.Lifecycle.{fresh_service, new_print_agent_service}
use quantix_cnnector_go.Main.{App, started, app_of, boot}
use quantix_cnnector_go.Main.Started.{boot-Runs}

abbrev seven : Device
seven = scale (step_of (string (codes "read")))

abbrev db : Store
db = record {
  load_device = λ id. inr (record seven { id = id });
  has_template = λ d. true;
  is_enabled = λ id. true;
  enabled_ids = inr (7 ∷ []);
}

abbrev id_of : ℕ → Error ⊎ Device → ℕ
id_of id (inl e) = id
id_of id (inr device) = device.id

abbrev build : Device → Error ⊎ ℕ
build device = inr 0

abbrev empty : Manager ℕ
empty = record { runtimes = []; metrics = metrics; published = [] }

abbrev settings : Settings
settings = record {
  db_type = codes "sqlite";
  db_name = codes "quantix.db";
  db_user = [];
  db_password = [];
  db_host = [];
  db_port = pos 0;
  api_key = codes "secret";
  log_level = codes "INFO";
  backend_host = codes "0.0.0.0";
  backend_port = pos 8000;
  frontend_host = codes "127.0.0.1";
  frontend_port = pos 8001;
  simulate_on_connect_fail = false;
  print_agent = record no_settings { enabled = true; max_concurrent_jobs = pos 1 };
}

abbrev agent : PrintAgentService
agent = fresh_service (normalize_agent_cfg settings.print_agent) (some 1)

abbrev app : App ℕ
app = app_of toy (line true) false 9 (startup toy (line true) db build false 9 empty).0 agent

starts : boot toy (line true) false 9 db build empty settings ≡ started app
unfolding boot startup start_device stop_device new_print_agent_service normalize_agent_cfg
    make_chan
starts = refl

boot-Runs_example : Runs toy (line true) false 9 db build 7 app.manager
boot-Runs_example =
    boot-Runs toy (line true) false 9 db build empty settings app (7 ∷ []) 7 0
      (λ id device h. ap (λ r. id_of id r) (sym h)) starts refl refl
