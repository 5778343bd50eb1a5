-- ===== src/PrintAgent/DirectJob.antt =====
-- internal/service/print_agent.go: a job that comes by a direct call (ExecuteDirectJob).
pub mod Recorded
use quantix_cnnector_go.Prelude.{
  ℕ, zero, suc, ◌+◌, ◌≡◌, Bool, true, false, ◌||◌, ◌&&◌, Option, none, some, List, [], ◌∷◌, ◌++◌,
  ltb, if◌then◌else◌, ◌⊎◌, inl, inr,
}
use quantix_cnnector_go.Prelude.Int.{ℤ, pos, ltb_ℤ, pos_part}
use quantix_cnnector_go.Prelude.Text.{Bytes, codes, eq_bytes, trim_space, to_lower}
use quantix_cnnector_go.Value.{Value, Fields, end, Libs, Error, errorf}
use quantix_cnnector_go.Config.{PrintAgentSettings, text_or_default}
use quantix_cnnector_go.Config.Mappings.{is_empty}
use quantix_cnnector_go.PrintAgent.{
  PrintAgentService, PrintAgentJobRecord, RemotePrintJob, note_poll, begin_job, end_job, set_error,
  push_history, count_failed, count_success,
}
use quantix_cnnector_go.PrintAgent.Execute.{
  Host, Wait, Permit, granted, canceled, blocked, acquire, current_exec_sem, execute_task, only,
}
use quantix_cnnector_go.PrintAgent.Remote.{
  Server, Report, claim_next_job, success_report, failed_report, report, is_context_canceled_err,
}
use quantix_cnnector_go.PrintAgent.Poll.{
  Times, limited, job_record, record_failed, record_success, success, failed, completed,
}

pub record DirectPrintJob : Type 0 where
  pub job_code : Bytes
  pub job_type : Bytes
  pub template_code : Bytes
  pub printer_name : Bytes
  pub copies : ℤ
  pub payload : Fields

pub data Direct : Type 0 where
  refused : Error → Direct
  done : PrintAgentJobRecord → Option Error → Direct
  stuck : Direct

abbrev pub direct_type : PrintAgentSettings → DirectPrintJob → Bytes
direct_type cfg req =
    text_or_default (trim_space req.job_type) (text_or_default cfg.job_type (codes "bartender"))

-- `stamp` is the time as it stands in a code that is made up.
abbrev pub direct_task : Bytes → DirectPrintJob → RemotePrintJob
direct_task stamp req = record {
  id = pos 0;
  job_code = text_or_default (trim_space req.job_code) (codes "DIRECT-" ++ stamp);
  template_code = trim_space req.template_code;
  printer_name = trim_space req.printer_name;
  copies = req.copies;
  payload = req.payload;
}

-- `gone` is the error of a context that has ended before the job starts.
module _ (lib : Libs) (host : Host) (times : Times) (wait : Wait) (stamp : Bytes)
    (gone : Option Error) where
  abbrev pub direct_settled :
      PrintAgentService
      → RemotePrintJob
      → Option (Fields × Option Error)
      → Direct × PrintAgentService
  direct_settled s task none = (stuck, s)
  direct_settled s task (some (result, some e)) = (
    done (job_record times task failed e.text result) (some e),
    end_job (record_failed times s task result e) task.job_code,
  )
  direct_settled s task (some (result, none)) = (
    done (job_record times task success completed result) none,
    end_job (record_success times s task result) task.job_code,
  )

  abbrev pub direct_begun :
      PrintAgentService
      → RemotePrintJob
      → PrintAgentSettings
      → Option Error
      → Direct × PrintAgentService
  direct_begun s task cfg (some e) = (refused e, end_job s task.job_code)
  direct_begun s task cfg none = direct_settled s task (
      limited task.job_code (execute_task lib host task cfg)
        (acquire (current_exec_sem s.exec_sem cfg) wait))

  unfoldable pub execute_direct_job :
      PrintAgentService → DirectPrintJob → Direct × PrintAgentService
  execute_direct_job s req =
      let task = direct_task stamp req in
      let kind = direct_type s.cfg req in
      if is_empty (trim_space req.template_code)
      then (refused (errorf (codes "template_code is required")), s)
      else if eq_bytes (to_lower kind) (codes "bartender")
      then direct_begun (begin_job false s task.job_code) task s.cfg gone
      else (refused (errorf (codes "unsupported job_type: " ++ kind)), s)
