-- ===== src/PrintAgent/DirectJob/Recorded.antt =====
-- What a direct job does to the service (ExecuteDirectJob).
use quantix_cnnector_go.Prelude.{
  ℕ, suc, ◌+◌, ◌≡◌, refl, false, Bool-cases, inl, inr, Option, none, some, [], ◌∷◌, ◌++◌, arith,
  keep_last,
}
use quantix_cnnector_go.Prelude.Text.{Bytes, codes, eq_bytes, to_lower, trim_space}
use quantix_cnnector_go.Value.{Fields, Libs, Error}
use quantix_cnnector_go.Config.{PrintAgentSettings}
use quantix_cnnector_go.Config.Mappings.{is_empty}
use quantix_cnnector_go.PrintAgent.{
  PrintAgentService, PrintAgentJobRecord, RemotePrintJob, begin_job, end_job, push_history,
  count_failed, count_success,
}
use quantix_cnnector_go.PrintAgent.Execute.{
  Host, Wait, Permit, granted, canceled, blocked, acquire, current_exec_sem, execute_task, only,
}
use quantix_cnnector_go.PrintAgent.Poll.{
  Times, limited, job_record, record_failed, record_success, success, failed, completed,
}
use quantix_cnnector_go.PrintAgent.DirectJob.{
  Direct, DirectPrintJob, refused, done, stuck, execute_direct_job, direct_begun, direct_settled,
  direct_task, direct_type,
}
use quantix_cnnector_go.PrintAgent.Poll.Accounts.{push_history-keep_last}

-- The two services agree on the counters of claimed jobs and on the jobs that are active.
pub record IsQuiet (s s' : PrintAgentService) : Type 0 where
  pub claims : s'.status.claimed_count ≡ s.status.claimed_count
  pub history : s'.history ≡ s.history
  pub succeeds : s'.status.success_count ≡ s.status.success_count
  pub fails : s'.status.failed_count ≡ s.status.failed_count

abbrev pub status_for : Option Error → Bytes
status_for none = success
status_for (some e) = failed

abbrev pub ones : Option Error → ℕ × ℕ
ones none = (1, 0)
ones (some e) = (0, 1)

pub record IsRecorded (s s' : PrintAgentService) (r : PrintAgentJobRecord) (e : Option Error)
    : Type 0 where
  pub kept : s'.history ≡ keep_last 100 (s.history ++ r ∷ [])
  pub says : r.status ≡ status_for e
  pub claims : s'.status.claimed_count ≡ s.status.claimed_count
  pub succeeds : s'.status.success_count ≡ s.status.success_count + (ones e).0
  pub fails : s'.status.failed_count ≡ s.status.failed_count + (ones e).1
  pub frees : s'.status.active_jobs ≡ s.status.active_jobs

-- A job that was refused left no trace, one that was done is recorded as it ended, and one that waits
-- for ever is active.
abbrev pub Matches : PrintAgentService → Direct → PrintAgentService → Type 0
Matches s (refused e) s' = IsQuiet s s' × (s'.status.active_jobs ≡ s.status.active_jobs)
Matches s (done r e) s' = IsRecorded s s' r e
Matches s stuck s' = IsQuiet s s' × (s'.status.active_jobs ≡ suc s.status.active_jobs)

module _ (lib : Libs) (host : Host) (times : Times) (wait : Wait) (stamp : Bytes)
    (gone : Option Error) where
  settled-Matches :
      (s : PrintAgentService) (task : RemotePrintJob) (outcome : Fields × Option Error)
      → let d =
          direct_settled lib host times wait stamp gone
            (begin_job false s task.job_code)
            task
            (some outcome) in
        Matches s d.0 d.1
  unfolding begin_job end_job record_failed record_success count_failed count_success push_history
  settled-Matches s task (result, some e) = record {
    kept = push_history-keep_last s (job_record times task failed e.text result);
    says = refl;
    claims = refl;
    succeeds = omega arith;
    fails = omega arith;
    frees = omega arith;
  }
  settled-Matches s task (result, none) = record {
    kept = push_history-keep_last s (job_record times task success completed result);
    says = refl;
    claims = refl;
    succeeds = omega arith;
    fails = omega arith;
    frees = omega arith;
  }

  permitted-Matches :
      (s : PrintAgentService) (task : RemotePrintJob) (outcome : Fields × Option Error) (p : Permit)
      → let d =
          direct_settled lib host times wait stamp gone
            (begin_job false s task.job_code)
            task
            (limited task.job_code outcome p) in
        Matches s d.0 d.1
  unfolding begin_job
  permitted-Matches s task outcome granted = settled-Matches s task outcome
  permitted-Matches s task outcome (canceled e) =
      settled-Matches s task (only (codes "job_code") task.job_code, some e)
  permitted-Matches s task outcome blocked =
      (record { claims = refl; history = refl; succeeds = refl; fails = refl }, refl)

  begun-Matches :
      (s : PrintAgentService) (task : RemotePrintJob) (cfg : PrintAgentSettings) (g : Option Error)
      → let d =
          direct_begun lib host times wait stamp gone
            (begin_job false s task.job_code)
            task
            cfg
            g in
        Matches s d.0 d.1
  unfolding begin_job end_job
  begun-Matches s task cfg (some e) =
      (record { claims = refl; history = refl; succeeds = refl; fails = refl }, omega arith)
  begun-Matches s task cfg none =
      permitted-Matches s task (execute_task lib host task cfg)
        (acquire (current_exec_sem s.exec_sem cfg) wait)

  -- A direct job that is refused, for want of a template, for its type or for a context that has
  -- ended, leaves counters and history as they were; one that is done adds one record, marked as
  -- it ended, and counts once as a success or a failure; neither counts as claimed nor stays active.
  pub execute_direct_job-Matches :
      (s : PrintAgentService) (req : DirectPrintJob)
      → let d = execute_direct_job lib host times wait stamp gone s req in Matches s d.0 d.1
  unfolding execute_direct_job
  execute_direct_job-Matches s req = elim (Bool-cases (is_empty (trim_space req.template_code))) [
    | inl e ↦ rw e (record { claims = refl; history = refl; succeeds = refl; fails = refl }, refl)
    | inr e ↦ elim (Bool-cases (eq_bytes (to_lower (direct_type s.cfg req)) (codes "bartender"))) [
      | inl k ↦ rw (e, k) (begun-Matches s (direct_task stamp req) s.cfg gone)
      | inr k ↦
          rw (e, k) (record { claims = refl; history = refl; succeeds = refl; fails = refl }, refl)
    ]
  ]
