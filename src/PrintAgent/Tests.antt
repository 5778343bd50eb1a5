-- ===== src/PrintAgent/Tests.antt =====
-- Runs of the print agent (internal/service/print_agent.go) on a machine where every file exists and
-- a server that has one job.
use quantix_cnnector_go.Prelude.{◌≡◌, refl, true, false, none, some, [], ◌∷◌, inr, arith}
use quantix_cnnector_go.Prelude.Int.{pos}
use quantix_cnnector_go.Prelude.Text.{codes, eq_bytes, trim_space}
use quantix_cnnector_go.Value.{string, field, end, ok}
use quantix_cnnector_go.Value.Toy.{toy}
use quantix_cnnector_go.Config.{PrintAgentSettings}
use quantix_cnnector_go.Config.Mappings.{lookup}
use quantix_cnnector_go.PrintAgent.{
  PrintAgentService, RemotePrintJob, normalize_agent_cfg, make_chan, begin_job, note_poll,
}
use quantix_cnnector_go.PrintAgent.Btxml.{build_btxml}
use quantix_cnnector_go.PrintAgent.Btxml.Tags.{tags_from, script_tags, build_btxml-script_tags}
use quantix_cnnector_go.PrintAgent.Btxml.Escape.{IsXml}
use quantix_cnnector_go.PrintAgent.Execute.{Host, Wait, acquire, execute_task}
use quantix_cnnector_go.PrintAgent.Remote.{Server, NextResponse, claim_next_job}
use quantix_cnnector_go.PrintAgent.Poll.{Times, returned, poll_once, execute_task_limited}
use quantix_cnnector_go.PrintAgent.Poll.Accounts.{Account, poll_once-Account}
use quantix_cnnector_go.PrintAgent.DirectJob.{DirectPrintJob}
use quantix_cnnector_go.PrintAgent.Lifecycle.{
  fresh_service, new_print_agent_service, start, shutdown, update_begin, update_finish, configured,
}
use quantix_cnnector_go.PrintAgent.Lifecycle.Groups.{
  IsSingle, here, after, starts, shuts_down, Reach-IsSingle, with_started, cancel_group, current,
  update_begin-overlaps,
}

abbrev settings : PrintAgentSettings
settings = record {
  enabled = true;
  server_url = codes "http://h:1";
  agent_api_key = [];
  client_id = codes "c";
  job_type = codes "bartender";
  default_printer_name = codes "p";
  bartender_executable = [];
  poll_interval_ms = pos 2000;
  long_poll_ms = pos 15000;
  max_concurrent_jobs = pos 1;
  template_mappings = (codes "box", codes "b.btw") ∷ [];
}

abbrev job : RemotePrintJob
job = record {
  id = pos 7;
  job_code = codes "J7";
  template_code = codes "box";
  printer_name = [];
  copies = pos 0;
  payload = field (codes "sku") (string (codes "<1>")) end;
}

abbrev machine : Host
machine = record {
  abs = λ p. inr p;
  stat = λ p. none;
  create_temp = inr (codes "t.btxml");
  write_string = λ p s. none;
  run = λ exe args. (codes "done\n", none);
}

abbrev answer : NextResponse
answer = record { success = true; message = []; data_ = some job }

abbrev server : Server
server = record {
  marshal = λ m. inr [];
  new_request = λ url. none;
  send = λ url key body. inr (pos 200, codes "{}");
  url_host = λ url. some (codes "h:1");
  decode_next = λ body. inr answer;
  decode_map = λ body. inr end;
  format = λ s. s;
  is_canceled = λ e. false;
}

abbrev times : Times
times = record { polled = 1; reported = 2; recorded = 3; settled = 4 }

abbrev free : Wait
free = record { held = 0; ended = none; place_first = true }

abbrev service : PrintAgentService
service = fresh_service (normalize_agent_cfg settings) (some 1)

made : new_print_agent_service settings ≡ ok service
unfolding new_print_agent_service make_chan normalize_agent_cfg
made = refl

build_btxml-script_tags_example :
    tags_from none (build_btxml toy (codes "a<b") (codes "p") (pos 2) (codes "\"><x>") job.payload)
    ≡ script_tags toy (codes "p") (codes "\"><x>") job.payload
build_btxml-script_tags_example =
    build_btxml-script_tags toy (codes "a<b") (codes "p") (codes "\"><x>") (pos 2) job.payload

printable : IsXml (codes "a < \"b\" & c\n")
printable = (
  refl,
  (refl, (refl, (refl, (refl, (refl, (refl, (refl, (refl, (refl, (refl, (refl, tt))))))))))),
)

polled : (poll_once toy machine server times free service settings).ended ≡ returned true none
unfolding poll_once claim_next_job execute_task_limited acquire begin_job note_poll execute_task
    trim_space lookup eq_bytes
polled = refl

poll_once-Account_example :
    Account toy machine server times free settings service
      (poll_once toy machine server times free service settings)
      (claim_next_job server settings)
poll_once-Account_example =
    poll_once-Account toy machine server times free settings service true none (omega arith) polled

-- Settings without a number of jobs.
abbrev unset : PrintAgentSettings
unset = record settings { max_concurrent_jobs = pos 0 }

unset_made : new_print_agent_service unset ≡ ok (fresh_service (normalize_agent_cfg unset) (some 0))
unfolding new_print_agent_service make_chan normalize_agent_cfg
unset_made = refl

claimed_job : claim_next_job server settings ≡ inr (some job)
unfolding claim_next_job
claimed_job = refl

abbrev request : DirectPrintJob
request = record {
  job_code = codes "D1";
  job_type = [];
  template_code = codes " box ";
  printer_name = [];
  copies = pos 1;
  payload = end;
}

Reach-IsSingle_example :
    IsSingle
      (shutdown (λ g. none) (start service)).1
      (cancel_group (start service).cancel (with_started service (start service) []))
Reach-IsSingle_example =
    Reach-IsSingle settings service (shutdown (λ g. none) (start service)).1
      (cancel_group (start service).cancel (with_started service (start service) [])) made
      (after (after here (starts service [] refl))
        (shuts_down (start service) (with_started service (start service) []) (λ g. none)))

abbrev once : PrintAgentService
once = configured service (normalize_agent_cfg settings) (some 1)

abbrev twice : PrintAgentService
twice = configured once (normalize_agent_cfg settings) (some 1)

first_update : update_begin service settings ≡ ok once
unfolding update_begin normalize_agent_cfg make_chan
first_update = refl

second_update : update_begin once settings ≡ ok twice
unfolding update_begin normalize_agent_cfg make_chan
second_update = refl

update_begin-overlaps_example :
    (with_started
        (update_finish none twice settings)
        (update_finish none (update_finish none twice settings) settings)
        (with_started twice
          (update_finish none twice settings)
          (cancel_group once.cancel (cancel_group service.cancel (current service.cancel))))
      ≡ 0 ∷ 1 ∷ [])
    × ((update_finish none (update_finish none twice settings) settings).cancel ≡ some 1)
update_begin-overlaps_example =
    update_begin-overlaps service once twice settings settings first_update second_update refl refl
