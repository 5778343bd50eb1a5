-- ===== src/Config.antt =====
-- internal/config/config.go: the settings, and the local file that keeps the API key and the print
-- agent's settings. Reading, writing and JSON are parameters.
pub mod Mappings
pub mod Normal
pub mod Store
pub mod Saved
mod Tests
use quantix_cnnector_go.Prelude.{◌==◌, Bool, ◌||◌, Option, none, some, List, [], ◌∷◌, if◌then◌else◌}
use quantix_cnnector_go.Prelude.Int.{ℤ, pos, leb_ℤ, ltb_ℤ}
use quantix_cnnector_go.Prelude.Text.{Bytes, codes, eq_bytes, trim_space, trim_right, to_lower}
use quantix_cnnector_go.Config.Mappings.{StringMap, clean}

pub record PrintAgentSettings : Type 0 where
  pub enabled : Bool
  pub server_url : Bytes
  pub agent_api_key : Bytes
  pub client_id : Bytes
  pub job_type : Bytes
  pub default_printer_name : Bytes
  pub bartender_executable : Bytes
  pub poll_interval_ms : ℤ
  pub long_poll_ms : ℤ
  pub max_concurrent_jobs : ℤ
  pub template_mappings : StringMap

pub record Settings : Type 0 where
  pub db_type : Bytes
  pub db_name : Bytes
  pub db_user : Bytes
  pub db_password : Bytes
  pub db_host : Bytes
  pub db_port : ℤ
  pub api_key : Bytes
  pub log_level : Bytes
  pub backend_host : Bytes
  pub backend_port : ℤ
  pub frontend_host : Bytes
  pub frontend_port : ℤ
  pub simulate_on_connect_fail : Bool
  pub print_agent : PrintAgentSettings

-- strings.TrimRight(s, "/")
abbrev pub trim_slashes : Bytes → Bytes
trim_slashes s = trim_right (λ c. c == b'/') s

abbrev pub text_or_default : Bytes → Bytes → Bytes
text_or_default [] fallback = fallback
text_or_default (c ∷ s) fallback = c ∷ s

abbrev pub positive_or : ℤ → ℤ → ℤ
positive_or n fallback = if leb_ℤ n (pos 0) then fallback else n

abbrev pub at_most_eight : ℤ → ℤ
at_most_eight n = if ltb_ℤ (pos 8) n then pos 8 else n

unfoldable pub normalize_print_agent_settings : PrintAgentSettings → PrintAgentSettings
normalize_print_agent_settings out = record {
  enabled = out.enabled;
  server_url = trim_slashes (trim_space out.server_url);
  agent_api_key = trim_space out.agent_api_key;
  client_id = trim_space out.client_id;
  job_type = text_or_default (trim_space out.job_type) (codes "bartender");
  default_printer_name = trim_space out.default_printer_name;
  bartender_executable = trim_space out.bartender_executable;
  poll_interval_ms = positive_or out.poll_interval_ms (pos 2000);
  long_poll_ms = positive_or out.long_poll_ms (pos 15000);
  max_concurrent_jobs = at_most_eight (positive_or out.max_concurrent_jobs (pos 1));
  template_mappings = clean [] out.template_mappings;
}

unfoldable pub parse_bool : Bytes → Bool
parse_bool v =
    let s = to_lower (trim_space v) in
    eq_bytes s (codes "1")
    || eq_bytes s (codes "true")
    || eq_bytes s (codes "yes")
    || eq_bytes s (codes "on")

-- os.Getenv and strconv.Atoi
module _ (env : Bytes → Bytes) (strconv_atoi : Bytes → Option ℤ) where
  unfoldable pub getenv : Bytes → Bytes → Bytes
  getenv key fallback = text_or_default (trim_space (env key)) fallback

  abbrev int_or_fallback : Option ℤ → ℤ → ℤ
  int_or_fallback none fallback = fallback
  int_or_fallback (some n) fallback = n

  unfoldable pub atoi : Bytes → ℤ → ℤ
  atoi v fallback = int_or_fallback (strconv_atoi (trim_space v)) fallback
