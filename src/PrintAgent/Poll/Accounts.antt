-- ===== src/PrintAgent/Poll/Accounts.antt =====
-- What a poll adds up to (pollOnce, pushHistory): counters, history and reports agree.
use quantix_cnnector_go.Prelude.{
  ℕ, ◌+◌, ◌≤◌, ◌≡◌, refl, sym, Bool, true, false, Bool-cases, Option, none, some, List, [], ◌∷◌,
  ◌++◌, append-nil, append_assoc, arith, length, ltb, keep_last, keep_last_all, ◌⊎◌, inl, inr,
}
use quantix_cnnector_go.Prelude.Text.{Bytes, codes, show_int, eq_bytes}
use quantix_cnnector_go.Value.{Fields, object, Libs, Error}
use quantix_cnnector_go.Value.Maps.{get, get?}
use quantix_cnnector_go.Config.{PrintAgentSettings}
use quantix_cnnector_go.PrintAgent.{
  PrintAgentService, PrintAgentJobRecord, RemotePrintJob, note_poll, begin_job, end_job, set_error,
  push_history, count_failed, count_success,
}
use quantix_cnnector_go.PrintAgent.Execute.{Host, Wait}
use quantix_cnnector_go.PrintAgent.Remote.{
  Server, Report, claim_next_job, success_report, failed_report, report,
}
use quantix_cnnector_go.PrintAgent.Poll.{
  Times, Ended, Polled, returned, waits_forever, settle, claimed, poll_once, execute_task_limited,
  job_record, record_failed, record_success, success, failed, completed, noted,
}

-- A report tells the server what a record of the history says.
abbrev pub Tells : PrintAgentSettings → PrintAgentJobRecord → Report → Type 0
Tells cfg r sent =
    (sent.0
      ≡ cfg.server_url ++ codes "/api/print-jobs/" ++ show_int r.job_id ++ codes "/" ++ r.status)
    × (get sent.1 (codes "result") ≡ object r.result)

abbrev pub AllTell : PrintAgentSettings → List PrintAgentJobRecord → List Report → Type 0
AllTell cfg [] [] = Unit {0}
AllTell cfg [] (p ∷ ps) = ⊥
AllTell cfg (r ∷ rs) [] = ⊥
AllTell cfg (r ∷ rs) (p ∷ ps) = Tells cfg r p × AllTell cfg rs ps

-- What a poll did with the state it started from, if it made these records, of which so many are of
-- successes and so many of failures: they are the last of the history, of which at most 100 are kept;
-- each is counted and reported, and none of its jobs is active any more.
pub record IsAccounted (cfg : PrintAgentSettings) (s : PrintAgentService)
    (records : List PrintAgentJobRecord) (wins losses : ℕ) (p : Polled) : Type 0 where
  pub kept : p.service.history ≡ keep_last 100 (s.history ++ records)
  pub claims : p.service.status.claimed_count ≡ s.status.claimed_count + length records
  pub succeeds : p.service.status.success_count ≡ s.status.success_count + wins
  pub fails : p.service.status.failed_count ≡ s.status.failed_count + losses
  pub frees : p.service.status.active_jobs ≡ s.status.active_jobs
  pub tells : AllTell cfg records p.reports

pub push_history-keep_last :
    (s : PrintAgentService) (r : PrintAgentJobRecord)
    → (push_history s r).history ≡ keep_last 100 (s.history ++ r ∷ [])
unfolding push_history
push_history-keep_last s r = elim (Bool-cases (ltb 100 (length (s.history ++ r ∷ [])))) [
  | inl e ↦ rw e refl
  | inr e ↦ rw e (sym (keep_last_all 100 (s.history ++ r ∷ []) (ground (arith, e))))
]

nothing :
    (cfg : PrintAgentSettings) (s : PrintAgentService) (now : ℕ) (e : Ended)
    → length s.history ≤ 100
    → IsAccounted cfg s [] 0 0 (record { ended = e; service = note_poll s now; reports = [] })
unfolding note_poll
nothing cfg s now e h = record {
  kept = rw (append-nil s.history) (sym (keep_last_all 100 s.history h));
  claims = omega arith;
  succeeds = omega arith;
  fails = omega arith;
  frees = refl;
  tells = tt;
}

-- The path of a report ends in the status of the record.
path-status :
    (url n tail : Bytes)
    → url ++ codes "/api/print-jobs/" ++ n ++ codes "/" ++ tail
      ≡ url ++ codes "/api/print-jobs/" ++ n ++ (codes "/" ++ tail)
path-status url n tail = append_assoc (url ++ codes "/api/print-jobs/" ++ n) (codes "/") tail

module _ (cfg : PrintAgentSettings) (times : Times) (task : RemotePrintJob) (result : Fields) where
  failed_report-Tells :
      (message : Bytes)
      → Tells cfg
          (job_record times task failed message result)
          (failed_report cfg task message result)
  unfolding failed_report get get? eq_bytes
  failed_report-Tells message = (sym (path-status cfg.server_url (show_int task.id) failed), refl)

  success_report-Tells :
      Tells cfg (job_record times task success completed result) (success_report cfg task result)
  unfolding success_report get get? eq_bytes
  success_report-Tells = (sym (path-status cfg.server_url (show_int task.id) success), refl)

-- A settled job: one record, which the history ends in, one report, and the counters that follow.
module _ (lib : Libs) (host : Host) (server : Server) (times : Times) (wait : Wait) where
  settled-failed :
      (cfg : PrintAgentSettings) (s : PrintAgentService) (task : RemotePrintJob) (result : Fields)
      (e : Error)
      → IsAccounted cfg s (job_record times task failed e.text result ∷ []) 0 1 (
          settle lib host server times wait
            (begin_job true (note_poll s times.polled) task.job_code)
            task
            cfg
            (some (result, some e)))
  unfolding settle note_poll begin_job end_job record_failed count_failed push_history
  settled-failed cfg s task result e = record {
    kept = push_history-keep_last s (job_record times task failed e.text result);
    claims = ground arith;
    succeeds = ground arith;
    fails = ground arith;
    frees = ground arith;
    tells = (failed_report-Tells cfg times task result e.text, tt);
  }

  settled-success :
      (cfg : PrintAgentSettings) (s : PrintAgentService) (task : RemotePrintJob) (result : Fields)
      (told : Option Error)
      → IsAccounted cfg s (job_record times task success completed result ∷ []) 1 0 (record {
        ended = returned true none;
        service =
            end_job
              (record_success times
                (noted
                  (begin_job true (note_poll s times.polled) task.job_code)
                  times.reported
                  told)
                task
                result)
              task.job_code;
        reports = success_report cfg task result ∷ [];
      })
  unfolding note_poll begin_job end_job record_success count_success push_history set_error
  settled-success cfg s task result none = record {
    kept = push_history-keep_last s (job_record times task success completed result);
    claims = ground arith;
    succeeds = ground arith;
    fails = ground arith;
    frees = ground arith;
    tells = (success_report-Tells cfg times task result, tt);
  }
  settled-success cfg s task result (some e) = record {
    kept = push_history-keep_last s (job_record times task success completed result);
    claims = ground arith;
    succeeds = ground arith;
    fails = ground arith;
    frees = ground arith;
    tells = (success_report-Tells cfg times task result, tt);
  }

  -- The service while a claimed job is executed, and what that comes to.
  abbrev pub executed :
      PrintAgentSettings → PrintAgentService → RemotePrintJob → Option (Fields × Option Error)
  executed cfg s task =
      execute_task_limited lib host server times wait
        (begin_job true (note_poll s times.polled) task.job_code) task cfg

  -- What a poll has done, by the server's answer to the claim and by what the job that it claimed came
  -- to.
  pub data Account (cfg : PrintAgentSettings) (s : PrintAgentService) (p : Polled)
      : Error ⊎ Option RemotePrintJob → Type 0 where
    unanswered :
        (e : Error)
        → p.ended ≡ returned false (some e)
        → IsAccounted cfg s [] 0 0 p
        → Account cfg s p (inl e)
    idle : p.ended ≡ returned false none → IsAccounted cfg s [] 0 0 p → Account cfg s p (inr none)
    printed :
        (task : RemotePrintJob) (result : Fields)
        → executed cfg s task ≡ some (result, none)
        → IsAccounted cfg s (job_record times task success completed result ∷ []) 1 0 p
        → Account cfg s p (inr (some task))
    broken :
        (task : RemotePrintJob) (result : Fields) (e : Error)
        → executed cfg s task ≡ some (result, some e)
        → IsAccounted cfg s (job_record times task failed e.text result ∷ []) 0 1 p
        → Account cfg s p (inr (some task))

  settle-Account :
      (cfg : PrintAgentSettings) (s : PrintAgentService) (task : RemotePrintJob)
      (outcome : Option (Fields × Option Error)) (b : Bool) (e : Option Error)
      → executed cfg s task ≡ outcome
      → (settle lib host server times wait
          (begin_job true (note_poll s times.polled) task.job_code)
          task
          cfg
          outcome).ended
        ≡ returned b e
      → Account cfg s
          (settle lib host server times wait
            (begin_job true (note_poll s times.polled) task.job_code)
            task
            cfg
            outcome)
          (inr (some task))
  unfolding settle
  settle-Account cfg s task none b e q h = absurd (distinct h)
    where
      distinct : waits_forever ≡ returned b e → ⊥
      distinct h' = cc
  settle-Account cfg s task (some (result, some x)) b e q h =
      broken task result x q (settled-failed cfg s task result x)
  settle-Account cfg s task (some (result, none)) b e q h =
      printed task result q
        (settled-success cfg s task result (report server cfg (success_report cfg task result)))

  claimed-Account :
      (cfg : PrintAgentSettings) (s : PrintAgentService) (claim : Error ⊎ Option RemotePrintJob)
      (b : Bool) (e : Option Error)
      → length s.history ≤ 100
      → (claimed lib host server times wait (note_poll s times.polled) cfg claim).ended
        ≡ returned b e
      → Account cfg s
          (claimed lib host server times wait (note_poll s times.polled) cfg claim)
          claim
  unfolding claimed
  claimed-Account cfg s (inl x) b e l h =
      unanswered x refl (nothing cfg s times.polled (returned false (some x)) l)
  claimed-Account cfg s (inr none) b e l h =
      idle refl (nothing cfg s times.polled (returned false none) l)
  claimed-Account cfg s (inr (some task)) b e l h =
      settle-Account cfg s task (executed cfg s task) b e refl h

  -- A poll that returns has claimed what the server answered to its claim. With a job it has executed
  -- it, made one record of it with its status, message and result, as the last of the history, of which
  -- 100 are kept, counted it as claimed, and as a success or a failure as the execution came out, and
  -- reported just that to the server under the job's number; the job is not active any more. An error
  -- of the claim is returned, and without a job nothing is recorded, counted or reported. The history
  -- was not longer than 100 records.
  pub poll_once-Account :
      (cfg : PrintAgentSettings) (s : PrintAgentService) (b : Bool) (e : Option Error)
      → length s.history ≤ 100
      → (poll_once lib host server times wait s cfg).ended ≡ returned b e
      → Account cfg s (poll_once lib host server times wait s cfg) (claim_next_job server cfg)
  unfolding poll_once
  poll_once-Account cfg s b e l h = claimed-Account cfg s (claim_next_job server cfg) b e l h
