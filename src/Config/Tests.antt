-- ===== src/Config/Tests.antt =====
-- Runs of the settings (internal/config/config.go) on a disk that keeps one configuration.
use quantix_cnnector_go.Prelude.{◌≡◌, refl, true, none, some, [], ◌∷◌, inr}
use quantix_cnnector_go.Prelude.Int.{pos, negsuc}
use quantix_cnnector_go.Prelude.Text.{codes, trim_space, trim_right, eq_bytes, to_lower}
use quantix_cnnector_go.Config.{
  PrintAgentSettings, normalize_print_agent_settings, parse_bool, trim_slashes,
}
use quantix_cnnector_go.Config.Mappings.{clean}
use quantix_cnnector_go.Config.Normal.{IsNormal, normalize_print_agent_settings-IsNormal}
use quantix_cnnector_go.Config.Store.{
  Disk, LocalConfig, no_config, load, load_local_config, save_print_agent_settings,
}
use quantix_cnnector_go.Config.Saved.{Keeps, load-save_print_agent_settings}

abbrev entered : PrintAgentSettings
entered = record {
  enabled = true;
  server_url = codes " http://10.0.0.1:8050/ ";
  agent_api_key = codes "key";
  client_id = codes "c1";
  job_type = codes " ";
  default_printer_name = [];
  bartender_executable = [];
  poll_interval_ms = pos 0;
  long_poll_ms = negsuc 0;
  max_concurrent_jobs = pos 20;
  template_mappings =
      (codes " box ", codes "C:/box.btw")
      ∷ (codes "void", codes " ")
      ∷ (codes "box", codes "D:/b")
      ∷ [];
}

abbrev stored : LocalConfig
stored = record no_config { print_agent = normalize_print_agent_settings entered }

abbrev disk : Disk
disk = record {
  unmarshal = λ s. some stored;
  marshal_indent = λ c. inr (codes "{}");
  write_file = λ file s. (none, some s);
}

normalized :
    ((normalize_print_agent_settings entered).server_url ≡ codes "http://10.0.0.1:8050")
    × ((normalize_print_agent_settings entered).job_type ≡ codes "bartender")
    × ((normalize_print_agent_settings entered).max_concurrent_jobs ≡ pos 8)
    × ((normalize_print_agent_settings entered).template_mappings
        ≡ (codes "box", codes "D:/b") ∷ [])
    × (parse_bool (codes " On ") ≡ true)
unfolding normalize_print_agent_settings parse_bool trim_right trim_space clean eq_bytes to_lower
normalized = (refl, refl, refl, refl, refl)

normalize_print_agent_settings-IsNormal_example : IsNormal (normalize_print_agent_settings entered)
normalize_print_agent_settings-IsNormal_example = normalize_print_agent_settings-IsNormal entered

kept : Keeps disk none stored (codes "{}")
kept = record { encodes = refl; decodes = refl; writes = refl }

url :
    trim_space (trim_slashes (trim_space entered.server_url))
    ≡ trim_slashes (trim_space entered.server_url)
unfolding trim_space
url = refl

load-save_print_agent_settings_example :
    (save_print_agent_settings disk none entered ≡ (none, some (codes "{}")))
    × ((load disk (λ k. []) (λ s. none) (some (codes "{}"))).print_agent
        ≡ normalize_print_agent_settings entered)
    × ((load disk (λ k. []) (λ s. none) (some (codes "{}"))).api_key
        ≡ (load disk (λ k. []) (λ s. none) none).api_key)
unfolding load_local_config
load-save_print_agent_settings_example =
    load-save_print_agent_settings disk (λ k. []) (λ s. none) none entered (codes "{}") kept url
