-- ===== src/Config/Store.antt =====
-- internal/config/config.go: Load and the local file (loadLocalConfig, saveLocalConfig, SaveAPIKey,
-- SavePrintAgentSettings).
use quantix_cnnector_go.Prelude.{false, ◌⊎◌, inl, inr, Option, none, some, []}
use quantix_cnnector_go.Prelude.Int.{ℤ, pos}
use quantix_cnnector_go.Prelude.Text.{Bytes, codes, to_lower, trim_space}
use quantix_cnnector_go.Value.{Error}
use quantix_cnnector_go.Config.{
  PrintAgentSettings, Settings, normalize_print_agent_settings, parse_bool, getenv, atoi,
  text_or_default,
}

pub record LocalConfig : Type 0 where
  pub api_key : Bytes
  pub print_agent : PrintAgentSettings

-- The zero value of a struct of settings.
abbrev pub no_settings : PrintAgentSettings
no_settings = record {
  enabled = false;
  server_url = [];
  agent_api_key = [];
  client_id = [];
  job_type = [];
  default_printer_name = [];
  bartender_executable = [];
  poll_interval_ms = pos 0;
  long_poll_ms = pos 0;
  max_concurrent_jobs = pos 0;
  template_mappings = [];
}

abbrev pub no_config : LocalConfig
no_config = record { api_key = []; print_agent = no_settings }

-- encoding/json on the local file, and os.WriteFile: an error, and what the file holds afterwards.
pub record Disk : Type 0 where
  pub unmarshal : Bytes → Option LocalConfig
  pub marshal_indent : LocalConfig → Error ⊎ Bytes
  pub write_file : Option Bytes → Bytes → Option Error × Option Bytes

module _ (disk : Disk) where
  abbrev parsed : Option LocalConfig → LocalConfig
  parsed none = no_config
  parsed (some cfg) = cfg

  -- The content of the file, where there is one.
  unfoldable pub load_local_config : Option Bytes → LocalConfig
  load_local_config none = no_config
  load_local_config (some content) = parsed (disk.unmarshal content)

  abbrev written : Option Bytes → Error ⊎ Bytes → Option Error × Option Bytes
  written file (inl e) = (some e, file)
  written file (inr content) = disk.write_file file content

  unfoldable pub save_local_config : Option Bytes → LocalConfig → Option Error × Option Bytes
  save_local_config file cfg = written file (disk.marshal_indent cfg)

  unfoldable pub save_api_key : Option Bytes → Bytes → Option Error × Option Bytes
  unfolding save_local_config load_local_config
  save_api_key file key =
      save_local_config file (record (load_local_config file) { api_key = trim_space key })

  unfoldable pub save_print_agent_settings :
      Option Bytes → PrintAgentSettings → Option Error × Option Bytes
  unfolding save_local_config load_local_config
  save_print_agent_settings file settings =
      save_local_config file
        (record (load_local_config file) { print_agent = normalize_print_agent_settings settings })

  unfoldable pub load : (Bytes → Bytes) → (Bytes → Option ℤ) → Option Bytes → Settings
  unfolding load_local_config
  load env strconv_atoi file =
      let local = load_local_config file in
      let text = getenv env strconv_atoi in
      let number = atoi env strconv_atoi in
      record {
        db_type = to_lower (text (codes "DB_TYPE") (codes "sqlite"));
        db_name = text (codes "DB_NAME") (codes "quantix.db");
        db_user = text (codes "DB_USER") [];
        db_password = text (codes "DB_PASSWORD") [];
        db_host = text (codes "DB_HOST") (codes "127.0.0.1");
        db_port = number (text (codes "DB_PORT") (codes "3306")) (pos 3306);
        api_key =
            text (codes "API_KEY")
              (text_or_default (trim_space local.api_key) (codes "quantix-dev-key"));
        log_level = text (codes "LOG_LEVEL") (codes "INFO");
        backend_host = text (codes "BACKEND_HOST") (codes "0.0.0.0");
        backend_port = number (text (codes "BACKEND_PORT") (codes "8000")) (pos 8000);
        frontend_host = text (codes "FRONTEND_HOST") (codes "127.0.0.1");
        frontend_port = number (text (codes "FRONTEND_PORT") (codes "8001")) (pos 8001);
        simulate_on_connect_fail =
            parse_bool (text (codes "SIMULATE_ON_CONNECT_FAIL") (codes "false"));
        print_agent = normalize_print_agent_settings local.print_agent;
      }
