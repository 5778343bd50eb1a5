-- ===== src/Api/Agent.antt =====
-- internal/api/print_agent.go and internal/api/remote_print.go: the routes of the print agent. gin writes
-- what a handler gives as JSON.
pub mod Answers
pub mod Kept
mod Tests
use quantix_cnnector_go.Prelude.{
  ℕ, Bool, true, false, Option, none, some, List, if◌then◌else◌, ◌⊎◌, inl, inr,
}
use quantix_cnnector_go.Prelude.Int.{pos}
use quantix_cnnector_go.Prelude.Text.{Bytes, codes}
use quantix_cnnector_go.Value.{Libs, Result, ok, Error, errorf, ◌>>=◌}
use quantix_cnnector_go.Config.{PrintAgentSettings}
use quantix_cnnector_go.Config.Mappings.{is_empty}
use quantix_cnnector_go.Config.Store.{Disk, save_print_agent_settings}
use quantix_cnnector_go.PrintAgent.{
  PrintAgentService, PrintAgentStatus, PrintAgentJobRecord, jobs, current_config,
}
use quantix_cnnector_go.PrintAgent.Execute.{Host, Wait, list_bartender_executable_candidates}
use quantix_cnnector_go.PrintAgent.Remote.{Server}
use quantix_cnnector_go.PrintAgent.Poll.{
  Times, Polled, Ended, returned, waits_forever, trigger_poll,
}
use quantix_cnnector_go.PrintAgent.DirectJob.{
  DirectPrintJob, Direct, refused, done, stuck, execute_direct_job,
}
use quantix_cnnector_go.PrintAgent.Lifecycle.{update_config}
use quantix_cnnector_go.Api.{Response, detail}
use quantix_cnnector_go.Api.Protocols.{or_old}

-- An error answer, or 200 with a value.
pub data Reply (A : Type 0) : Type 0 where
  refuses : Response → Reply A
  gives : A → Reply A

abbrev pub unavailable : Response
unavailable = detail 503 (codes "print agent unavailable")

-- A handler that only reads the agent, which may be missing.
abbrev with_agent : {A : Type 0} → Option PrintAgentService → (PrintAgentService → A) → Reply A
with_agent none read = refuses unavailable
with_agent (some s) read = gives (read s)

unfoldable pub print_agent_status : Option PrintAgentService → Reply PrintAgentStatus
print_agent_status agent = with_agent agent (λ s. s.status)

unfoldable pub print_agent_config : Option PrintAgentService → Reply PrintAgentSettings
print_agent_config agent = with_agent agent current_config

unfoldable pub print_agent_bartender_candidates : Host → Reply (List Bytes)
print_agent_bartender_candidates host = gives (list_bartender_executable_candidates host)

unfoldable pub print_agent_jobs : Option PrintAgentService → Reply (List PrintAgentJobRecord)
print_agent_jobs agent = with_agent agent (λ s. jobs s (pos 50))

-- An update: the answer with the agent after it, and the local file.
abbrev pub Updated : Type 0
Updated = Result (Reply PrintAgentSettings × Option PrintAgentService) × Option Bytes

module _ (disk : Disk) (waits : ℕ → Option Error) (file : Option Bytes) where
  abbrev pub saved : PrintAgentService → PrintAgentSettings → Option Error × Option Bytes → Updated
  saved s req (some e, file') = (ok (refuses (detail 500 e.text), some s), file')
  saved s req (none, file') =
      (update_config waits s req >>= (λ s'. ok (gives (current_config s'), some s')), file')

  unfoldable pub update_print_agent_config :
      Option PrintAgentService → Error ⊎ PrintAgentSettings → Updated
  unfolding save_print_agent_settings update_config current_config
  update_print_agent_config none body = (ok (refuses unavailable, none), file)
  update_print_agent_config (some s) (inl e) = (ok (refuses (detail 400 e.text), some s), file)
  update_print_agent_config (some s) (inr req) =
      saved s req (save_print_agent_settings disk file req)

-- Nothing where the poll waits for ever.
abbrev polled : Ended → Option (Reply Bool)
polled (returned got none) = some (gives true)
polled (returned got (some e)) = some (refuses (detail 400 e.text))
polled waits_forever = none

-- A job's answer says whether it went well, and gives its record.
abbrev pub Printed : Type 0
Printed = Reply (Bool × PrintAgentJobRecord)

abbrev pub printed : Direct → Option Printed
printed (refused e) = some (refuses (detail 400 e.text))
printed (done r (some e)) =
    some (if is_empty r.job_code then refuses (detail 400 e.text) else gives (false, r))
printed (done r none) = some (gives (true, r))
printed stuck = none

module _ (lib : Libs) (host : Host) (times : Times) (wait : Wait) where
  unfoldable pub print_agent_poll_once :
      Server → Option PrintAgentService → Option (Reply Bool) × Option PrintAgentService
  unfolding trigger_poll
  print_agent_poll_once server none = (some (refuses unavailable), none)
  print_agent_poll_once server (some s) =
      let p = trigger_poll lib host server times wait s in (polled p.ended, some p.service)

  -- context.WithTimeout: the context ends after two minutes, or before with the request's own error.
  abbrev pub in_time : Wait
  in_time = record wait {
    ended = some (or_old wait.ended (errorf (codes "context deadline exceeded")));
  }

  -- `stamp` is the time in the code of a job without one, `closed` an error of the request's context.
  unfoldable pub remote_print_job :
      Bytes
      → Option Error
      → Option PrintAgentService
      → Error ⊎ DirectPrintJob
      → Option Printed × Option PrintAgentService
  unfolding execute_direct_job
  remote_print_job stamp closed none body = (some (refuses unavailable), none)
  remote_print_job stamp closed (some s) (inl e) = (some (refuses (detail 400 e.text)), some s)
  remote_print_job stamp closed (some s) (inr req) =
      let (d, s') = execute_direct_job lib host times in_time stamp closed s req in
      (printed d, some s')
