-- ===== src/PrintAgent.antt =====
-- internal/service/print_agent.go: the print agent. It claims jobs from a server, prints them with
-- BarTender and reports back; the state that its workers share is here.
pub mod Btxml
pub mod Execute
pub mod Remote
pub mod Poll
pub mod DirectJob
mod Tests
pub mod Lifecycle
use quantix_cnnector_go.Prelude.{
  ℕ, suc, zero, ◌+◌, ◌-◌, ◌≡◌, Bool, true, false, Option, none, some, List, [], ◌∷◌, ◌++◌, length,
  ltb, if◌then◌else◌, keep_last,
}
use quantix_cnnector_go.Prelude.Int.{ℤ, pos, negsuc}
use quantix_cnnector_go.Prelude.Text.{Bytes, codes, eq_bytes, trim_space, trim_right}
use quantix_cnnector_go.Value.{Fields, Error, errorf, Result, ok, panic}
use quantix_cnnector_go.Config.{PrintAgentSettings, trim_slashes}

-- A time is the reading of a clock, 0 the zero time. A counter counts jobs one by one.
pub record PrintAgentStatus : Type 0 where
  pub enabled : Bool
  pub running : Bool
  pub worker_count : ℤ
  pub active_jobs : ℕ
  pub server_url : Bytes
  pub client_id : Bytes
  pub job_type : Bytes
  pub last_poll_at : ℕ
  pub last_success_at : ℕ
  pub last_error_at : ℕ
  pub last_error : Bytes
  pub current_job_code : Bytes
  pub claimed_count : ℕ
  pub success_count : ℕ
  pub failed_count : ℕ

pub record PrintAgentJobRecord : Type 0 where
  pub time : ℕ
  pub job_id : ℤ
  pub job_code : Bytes
  pub template_code : Bytes
  pub printer_name : Bytes
  pub status : Bytes
  pub message : Bytes
  pub result : Fields

pub record RemotePrintJob : Type 0 where
  pub id : ℤ
  pub job_code : Bytes
  pub template_code : Bytes
  pub printer_name : Bytes
  pub copies : ℤ
  pub payload : Fields

-- A group of workers has a number; `cancel` and `done` hold that of the group they belong to, and
-- `next_group` is the number of the next one. `exec_sem` is the capacity of the semaphore.
pub record PrintAgentService : Type 0 where
  pub cfg : PrintAgentSettings
  pub status : PrintAgentStatus
  pub history : List PrintAgentJobRecord
  pub cancel : Option ℕ
  pub done : Option ℕ
  pub exec_sem : Option ℕ
  pub next_group : ℕ

unfoldable pub normalize_agent_cfg : PrintAgentSettings → PrintAgentSettings
normalize_agent_cfg cfg = record cfg {
  server_url = trim_slashes (trim_space cfg.server_url);
  agent_api_key = trim_space cfg.agent_api_key;
  client_id = trim_space cfg.client_id;
  job_type = trim_space cfg.job_type;
  default_printer_name = trim_space cfg.default_printer_name;
  bartender_executable = trim_space cfg.bartender_executable;
}

-- make(chan struct{}, n)
unfoldable pub make_chan : ℤ → Result (Option ℕ)
make_chan (pos n) = ok (some n)
make_chan (negsuc n) = panic

-- What changes the state under one lock.
unfoldable pub set_error : PrintAgentService → ℕ → Error → PrintAgentService
set_error s now e = record s {
  status = record s.status { last_error_at = now; last_error = trim_space e.text };
}

unfoldable pub push_history : PrintAgentService → PrintAgentJobRecord → PrintAgentService
push_history s item =
    let history = s.history ++ item ∷ [] in
    record s { history = if ltb 100 (length history) then keep_last 100 history else history }

-- The start of pollOnce.
unfoldable pub note_poll : PrintAgentService → ℕ → PrintAgentService
note_poll s now = record s { status = record s.status { last_poll_at = now } }

-- A job that starts: a claimed one is counted, a direct one is not.
unfoldable pub begin_job : Bool → PrintAgentService → Bytes → PrintAgentService
begin_job claimed s code = record s {
  status = record s.status {
    claimed_count = if claimed then suc s.status.claimed_count else s.status.claimed_count;
    current_job_code = code;
    active_jobs = suc s.status.active_jobs;
  };
}

-- The deferred function of pollOnce and ExecuteDirectJob.
unfoldable pub end_job : PrintAgentService → Bytes → PrintAgentService
end_job s code =
    let ours = eq_bytes (trim_space s.status.current_job_code) (trim_space code) in
    record s {
      status = record s.status {
        active_jobs = s.status.active_jobs - 1;
        current_job_code = if ours then [] else s.status.current_job_code;
      };
    }

unfoldable pub count_failed : PrintAgentService → ℕ → Error → PrintAgentService
count_failed s now e = record s {
  status = record s.status {
    failed_count = suc s.status.failed_count;
    last_error_at = now;
    last_error = e.text;
  };
}

unfoldable pub count_success : PrintAgentService → ℕ → PrintAgentService
count_success s now = record s {
  status = record s.status {
    success_count = suc s.status.success_count;
    last_success_at = now;
    last_error = [];
  };
}

-- Jobs: the newest first.
abbrev at_most {ℓ} : {A : Type ℓ} → ℕ → List A → List A
at_most zero xs = []
at_most (suc n) [] = []
at_most (suc n) (x ∷ xs) = x ∷ at_most n xs

abbrev pub newest_first {ℓ} : {A : Type ℓ} → List A → List A
newest_first [] = []
newest_first (x ∷ xs) = newest_first xs ++ x ∷ []

abbrev pub job_limit : ℤ → ℕ → ℕ
job_limit (negsuc n) size = size
job_limit (pos zero) size = size
job_limit (pos (suc n)) size = if ltb size (suc n) then size else suc n

unfoldable pub jobs : PrintAgentService → ℤ → List PrintAgentJobRecord
jobs s limit = at_most (job_limit limit (length s.history)) (newest_first s.history)

unfoldable pub current_config : PrintAgentService → PrintAgentSettings
unfolding normalize_agent_cfg
current_config s = normalize_agent_cfg s.cfg
