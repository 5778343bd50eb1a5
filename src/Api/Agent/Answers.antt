-- ===== src/Api/Agent/Answers.antt =====
-- What the answers of the print agent's routes mean (internal/api/print_agent.go,
-- internal/api/remote_print.go).
use quantix_cnnector_go.Prelude.{◌≡◌, true, false, Option, none, some}
use quantix_cnnector_go.Prelude.Text.{Bytes}
use quantix_cnnector_go.Value.{Libs, Error}
use quantix_cnnector_go.Config.Mappings.{is_empty}
use quantix_cnnector_go.PrintAgent.{PrintAgentService, PrintAgentJobRecord}
use quantix_cnnector_go.PrintAgent.Execute.{Host, Wait}
use quantix_cnnector_go.PrintAgent.Poll.{Times}
use quantix_cnnector_go.PrintAgent.DirectJob.{Direct, refused, done, stuck}
use quantix_cnnector_go.PrintAgent.DirectJob.Recorded.{IsQuiet, IsRecorded}
use quantix_cnnector_go.Api.{detail}
use quantix_cnnector_go.Api.Agent.{refuses, gives, Printed, in_time}

module _ (lib : Libs) (host : Host) (times : Times) (wait : Wait) (stamp : Bytes)
    (gone : Option Error) where
  -- The record of a job that was done has a code.
  abbrev Named : Direct → Type 0
  Named (refused e) = Unit {0}
  Named (done r e) = is_empty r.job_code ≡ false
  Named stuck = Unit {0}

  -- An answer to a job and the agent after it.
  pub data Answer (s : PrintAgentService) : Option Printed × Option PrintAgentService → Type 0 where
    denied :
        {s' : PrintAgentService} (text : Bytes)
        → IsQuiet s s'
        → s'.status.active_jobs ≡ s.status.active_jobs
        → Answer s (some (refuses (detail 400 text)), some s')
    failed :
        {s' : PrintAgentService} (r : PrintAgentJobRecord) (e : Error)
        → IsRecorded s s' r (some e)
        → Answer s (some (gives (false, r)), some s')
    succeeded :
        {s' : PrintAgentService} (r : PrintAgentJobRecord)
        → IsRecorded s s' r none
        → Answer s (some (gives (true, r)), some s')

  -- A job whose context ends waits no longer than that.
  abbrev Ends : Direct → Type 0
  Ends (refused e) = Unit {0}
  Ends (done r e) = Unit {0}
  Ends stuck = ⊥

module _ (lib : Libs) (host : Host) (times : Times) (wait : Wait) (stamp : Bytes)
    (gone : Option Error) where
  abbrev limit : Wait
  limit = in_time lib host times wait
