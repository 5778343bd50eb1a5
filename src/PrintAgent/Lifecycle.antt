-- ===== src/PrintAgent/Lifecycle.antt =====
-- internal/service/print_agent.go: starting and stopping the workers (NewPrintAgentService, Start,
-- Shutdown, UpdateConfig, startLocked).
pub mod Groups
use quantix_cnnector_go.Prelude.{
  ℕ, suc, ◌≡◌, Bool, true, false, Option, none, some, List, [], ◌∷◌, ◌++◌, ◌==◌, if◌then◌else◌,
}
use quantix_cnnector_go.Prelude.Int.{ℤ, pos, leb_ℤ}
use quantix_cnnector_go.Value.{Error, Result, ok, ◌>>=◌}
use quantix_cnnector_go.Config.{PrintAgentSettings, positive_or}
use quantix_cnnector_go.PrintAgent.{
  PrintAgentService, PrintAgentStatus, normalize_agent_cfg, make_chan,
}

abbrev started_status : PrintAgentSettings → PrintAgentStatus
started_status cfg = record {
  enabled = cfg.enabled;
  running = false;
  worker_count = cfg.max_concurrent_jobs;
  active_jobs = 0;
  server_url = cfg.server_url;
  client_id = cfg.client_id;
  job_type = cfg.job_type;
  last_poll_at = 0;
  last_success_at = 0;
  last_error_at = 0;
  last_error = [];
  current_job_code = [];
  claimed_count = 0;
  success_count = 0;
  failed_count = 0;
}

abbrev pub fresh_service : PrintAgentSettings → Option ℕ → PrintAgentService
fresh_service cfg exec_sem = record {
  cfg = cfg;
  status = started_status cfg;
  history = [];
  cancel = none;
  done = none;
  exec_sem = exec_sem;
  next_group = 0;
}

unfoldable pub new_print_agent_service : PrintAgentSettings → Result PrintAgentService
unfolding normalize_agent_cfg
new_print_agent_service given = do
  exec_sem ← make_chan (normalize_agent_cfg given).max_concurrent_jobs
  ok (fresh_service (normalize_agent_cfg given) exec_sem)

-- startLocked: the workers get the number of a new group.
unfoldable pub start_locked : PrintAgentService → PrintAgentSettings → PrintAgentService
start_locked s cfg =
    if cfg.enabled
    then record s {
      cancel = some s.next_group;
      done = some s.next_group;
      next_group = suc s.next_group;
      status = record s.status {
        running = true;
        worker_count = positive_or cfg.max_concurrent_jobs (pos 1);
      };
    }
    else s

unfoldable pub start : PrintAgentService → PrintAgentService
unfolding start_locked
start s = start_locked s s.cfg

-- What Shutdown and UpdateConfig do under the lock before they cancel the workers.
unfoldable pub detach : PrintAgentService → PrintAgentService
detach s = record s {
  cancel = none;
  done = none;
  status = record s.status { running = false; active_jobs = 0 };
}

-- `waits g` is how waiting for the end of group g goes: the error of the caller's context, if that ends
-- first.
abbrev pub waited : (ℕ → Option Error) → Option ℕ → Option Error
waited waits none = none
waited waits (some g) = waits g

unfoldable pub shutdown : (ℕ → Option Error) → PrintAgentService → Option Error × PrintAgentService
unfolding detach
shutdown waits s = (waited waits s.done, detach s)

unfoldable pub configured : PrintAgentService → PrintAgentSettings → Option ℕ → PrintAgentService
unfolding detach
configured s cfg exec_sem = detach (record s {
  cfg = cfg;
  exec_sem = exec_sem;
  status = record s.status {
    enabled = cfg.enabled;
    server_url = cfg.server_url;
    client_id = cfg.client_id;
    job_type = cfg.job_type;
    worker_count = cfg.max_concurrent_jobs;
  };
})

-- UpdateConfig up to where it waits; a panic there leaves the lock held.
unfoldable pub update_begin : PrintAgentService → PrintAgentSettings → Result PrintAgentService
unfolding normalize_agent_cfg configured
update_begin s given = do
  exec_sem ← make_chan (normalize_agent_cfg given).max_concurrent_jobs
  ok (configured s (normalize_agent_cfg given) exec_sem)

-- The rest of it.
abbrev pub update_finish : Option Error → PrintAgentService → PrintAgentSettings → PrintAgentService
update_finish (some e) s given = s
update_finish none s given = start_locked s (normalize_agent_cfg given)

-- UpdateConfig where nothing else runs in between.
unfoldable pub update_config :
    (ℕ → Option Error) → PrintAgentService → PrintAgentSettings → Result PrintAgentService
unfolding update_begin start_locked
update_config waits s given = do
  detached ← update_begin s given
  ok (update_finish (waited waits s.done) detached given)

-- What the goroutine of a group does when its workers have all returned.
abbrev pub is_group : Option ℕ → ℕ → Bool
is_group none g = false
is_group (some d) g = d == g

unfoldable pub group_ended : PrintAgentService → ℕ → PrintAgentService
group_ended s g =
    if is_group s.done g
    then record s { status = record s.status { running = false; active_jobs = 0 } }
    else s
