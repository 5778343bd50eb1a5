-- ===== src/Api/Agent/Tests.antt =====
-- A direct job over HTTP on a machine where every file exists (internal/api/remote_print.go).
use quantix_cnnector_go.Prelude.{◌≡◌, refl, true, none, some, [], ◌∷◌, inr}
use quantix_cnnector_go.Prelude.Int.{pos}
use quantix_cnnector_go.Prelude.Text.{codes, trim_space}
use quantix_cnnector_go.Value.{end, ok}
use quantix_cnnector_go.Config.{PrintAgentSettings, normalize_print_agent_settings}
use quantix_cnnector_go.Config.Store.{
  Disk, LocalConfig, no_settings, no_config, load, load_local_config,
}
use quantix_cnnector_go.Config.Saved.{Keeps}
use quantix_cnnector_go.PrintAgent.{PrintAgentService, current_config}
use quantix_cnnector_go.PrintAgent.Execute.{Host, Wait}
use quantix_cnnector_go.PrintAgent.Poll.{Times}
use quantix_cnnector_go.PrintAgent.DirectJob.{DirectPrintJob}
use quantix_cnnector_go.PrintAgent.Lifecycle.{fresh_service}
use quantix_cnnector_go.Api.Agent.{gives, update_print_agent_config}
use quantix_cnnector_go.Api.Agent.Kept.{Works, update_print_agent_config-Keeps}

abbrev settings : PrintAgentSettings
settings = record no_settings {
  enabled = true;
  max_concurrent_jobs = pos 1;
  template_mappings = (codes "box", codes "b.btw") ∷ [];
}

abbrev machine : Host
machine = record {
  abs = λ p. inr p;
  stat = λ p. none;
  create_temp = inr (codes "t.btxml");
  write_string = λ p s. none;
  run = λ exe args. (codes "done\n", none);
}

abbrev times : Times
times = record { polled = 1; reported = 2; recorded = 3; settled = 4 }

abbrev free : Wait
free = record { held = 0; ended = none; place_first = true }

abbrev service : PrintAgentService
service = fresh_service settings (some 1)

abbrev request : DirectPrintJob
request = record {
  job_code = codes "D1";
  job_type = [];
  template_code = codes " box ";
  printer_name = codes "p";
  copies = pos 1;
  payload = end;
}

abbrev normal : PrintAgentSettings
normal = normalize_print_agent_settings settings

abbrev stored : LocalConfig
stored = record no_config { print_agent = normal }

abbrev disk : Disk
disk = record {
  unmarshal = λ text. some stored;
  marshal_indent = λ cfg. inr (codes "{}");
  write_file = λ file text. (none, some text);
}

keeps : Keeps disk none stored (codes "{}")
keeps = record { encodes = refl; decodes = refl; writes = refl }

update_print_agent_config-Keeps_example :
    (s' : PrintAgentService) × (update_print_agent_config disk
        (λ g. none)
        none
        (some service)
        (inr normal)
      ≡ (ok (gives normal, some s'), some (codes "{}")))
    × (current_config s' ≡ normal)
    × Works service normal s' none true
    × ((load disk (λ k. []) (λ t. none) (some (codes "{}"))).print_agent ≡ normal)
unfolding load_local_config trim_space normalize_print_agent_settings
update_print_agent_config-Keeps_example =
    update_print_agent_config-Keeps disk (λ k. []) (λ t. none) (λ g. none) none service settings
      normal (codes "{}") refl refl keeps
