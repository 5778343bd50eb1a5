-- ===== src/PrintAgent/Poll.antt =====
-- internal/service/print_agent.go: what a worker does (pollOnce, TriggerPoll, and a turn of loop), on its
-- own.
pub mod Accounts
use quantix_cnnector_go.Prelude.{
  ℕ, zero, suc, ◌+◌, ◌≡◌, Bool, true, false, ◌||◌, ◌&&◌, Option, none, some, List, [], ◌∷◌, ◌++◌,
  ltb, if◌then◌else◌, ◌⊎◌, inl, inr,
}
use quantix_cnnector_go.Prelude.Int.{ℤ, pos, ltb_ℤ, pos_part}
use quantix_cnnector_go.Prelude.Text.{Bytes, codes, eq_bytes, trim_space, to_lower}
use quantix_cnnector_go.Value.{Value, Fields, end, Libs, Error, errorf}
use quantix_cnnector_go.Config.{PrintAgentSettings, text_or_default}
use quantix_cnnector_go.Config.Mappings.{is_empty}
use quantix_cnnector_go.PrintAgent.{
  PrintAgentService, PrintAgentJobRecord, RemotePrintJob, note_poll, begin_job, end_job, set_error,
  push_history, count_failed, count_success,
}
use quantix_cnnector_go.PrintAgent.Execute.{
  Host, Wait, Permit, granted, canceled, blocked, acquire, current_exec_sem, execute_task, only,
}
use quantix_cnnector_go.PrintAgent.Remote.{
  Server, Report, claim_next_job, success_report, failed_report, report, is_context_canceled_err,
}

-- The readings of the clock in one call.
pub record Times : Type 0 where
  pub polled : ℕ
  pub reported : ℕ
  pub recorded : ℕ
  pub settled : ℕ

-- How a call ends: with a job or not and an error or not, or never, because its job waits for a place
-- that does not come.
pub data Ended : Type 0 where
  returned : Bool → Option Error → Ended
  waits_forever : Ended

pub record Polled : Type 0 where
  pub ended : Ended
  pub service : PrintAgentService
  pub reports : List Report

-- executeTaskLimited: none where it waits for ever.
abbrev pub limited : Bytes → Fields × Option Error → Permit → Option (Fields × Option Error)
limited code outcome granted = some outcome
limited code outcome (canceled e) = some (only (codes "job_code") code, some e)
limited code outcome blocked = none

abbrev pub success : Bytes
success = codes "success"

abbrev pub failed : Bytes
failed = codes "failed"

abbrev pub completed : Bytes
completed = codes "print completed"

abbrev pub job_record : Times → RemotePrintJob → Bytes → Bytes → Fields → PrintAgentJobRecord
job_record times task status message result = record {
  time = times.recorded;
  job_id = task.id;
  job_code = task.job_code;
  template_code = task.template_code;
  printer_name = task.printer_name;
  status = status;
  message = message;
  result = result;
}

-- The history and the counters at the end of a job.
unfoldable pub record_failed :
    Times → PrintAgentService → RemotePrintJob → Fields → Error → PrintAgentService
record_failed times s task result e =
    count_failed (push_history s (job_record times task failed e.text result)) times.settled e

unfoldable pub record_success :
    Times → PrintAgentService → RemotePrintJob → Fields → PrintAgentService
record_success times s task result =
    count_success (push_history s (job_record times task success completed result)) times.settled

abbrev pub noted : PrintAgentService → ℕ → Option Error → PrintAgentService
noted s now none = s
noted s now (some e) = set_error s now e

module _ (lib : Libs) (host : Host) (server : Server) (times : Times) (wait : Wait) where
  unfoldable pub execute_task_limited :
      PrintAgentService → RemotePrintJob → PrintAgentSettings → Option (Fields × Option Error)
  execute_task_limited s task cfg =
      limited task.job_code (execute_task lib host task cfg)
        (acquire (current_exec_sem s.exec_sem cfg) wait)

  -- What follows the execution of a claimed job.
  unfoldable pub settle :
      PrintAgentService
      → RemotePrintJob
      → PrintAgentSettings
      → Option (Fields × Option Error)
      → Polled
  settle s task cfg none = record { ended = waits_forever; service = s; reports = [] }
  settle s task cfg (some (result, some e)) = record {
    ended = returned true none;
    service = end_job (record_failed times s task result e) task.job_code;
    reports = failed_report cfg task e.text result ∷ [];
  }
  settle s task cfg (some (result, none)) =
      let sent = success_report cfg task result in
      let told = noted s times.reported (report server cfg sent) in
      record {
        ended = returned true none;
        service = end_job (record_success times told task result) task.job_code;
        reports = sent ∷ [];
      }

  unfoldable pub claimed :
      PrintAgentService → PrintAgentSettings → Error ⊎ Option RemotePrintJob → Polled
  unfolding settle
  claimed s cfg (inl e) = record { ended = returned false (some e); service = s; reports = [] }
  claimed s cfg (inr none) = record { ended = returned false none; service = s; reports = [] }
  claimed s cfg (inr (some task)) =
      let begun = begin_job true s task.job_code in
      settle begun task cfg (execute_task_limited begun task cfg)

  unfoldable pub poll_once : PrintAgentService → PrintAgentSettings → Polled
  unfolding claimed
  poll_once s cfg = claimed (note_poll s times.polled) cfg (claim_next_job server cfg)

  abbrev triggered : Ended → Ended
  triggered (returned b e) = returned b (if is_context_canceled_err server e then none else e)
  triggered waits_forever = waits_forever

  unfoldable pub trigger_poll : PrintAgentService → Polled
  unfolding poll_once
  trigger_poll s =
      let p = poll_once s s.cfg in
      if s.cfg.enabled then record p { ended = triggered p.ended } else record {
        ended = returned false (some (errorf (codes "print agent is disabled")));
        service = s;
        reports = [];
      }

-- A turn of loop: what it does after a poll. Durations are in milliseconds.
pub data Next : Type 0 where
  returns : Next
  sleeps : ℕ → Next
  again : Next
  stays : Next

abbrev pub loop_interval : PrintAgentSettings → ℕ
loop_interval cfg =
    if ltb (pos_part cfg.poll_interval_ms) 500 then 500 else pos_part cfg.poll_interval_ms

abbrev pub idle_sleep : PrintAgentSettings → ℕ
idle_sleep cfg =
    if ltb_ℤ (pos 0) cfg.long_poll_ms && ltb 500 (loop_interval cfg) then 500 else loop_interval cfg

module _ (server : Server) (cfg : PrintAgentSettings) (now : ℕ) where
  unfoldable pub after_poll : Polled → Next × PrintAgentService
  after_poll p = elim p.ended [
    | waits_forever ↦ (stays, p.service)
    | returned claimed none ↦ (if claimed then again else sleeps (idle_sleep cfg), p.service)
    | returned claimed (some e) ↦
        if is_context_canceled_err server (some e)
        then (returns, p.service)
        else (sleeps (loop_interval cfg), set_error p.service now e)
  ]
