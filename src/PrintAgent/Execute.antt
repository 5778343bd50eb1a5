-- ===== src/PrintAgent/Execute.antt =====
-- internal/service/print_agent.go: one job on this machine (executeTask, executeTaskLimited,
-- resolveBarTenderExecutable). Files and processes are parameters.
use quantix_cnnector_go.Prelude.{
  ℕ, suc, zero, Bool, true, false, not, ◌||◌, Option, none, some, List, [], ◌∷◌, ◌++◌, ltb,
  if◌then◌else◌, ◌⊎◌, inl, inr,
}
use quantix_cnnector_go.Prelude.Int.{ℤ, pos, negsuc}
use quantix_cnnector_go.Prelude.Text.{Bytes, codes, eq_bytes, trim_space}
use quantix_cnnector_go.Value.{int, string, Fields, end, field, Libs, Error, errorf, wrap_errorf}
use quantix_cnnector_go.Config.{PrintAgentSettings, text_or_default}
use quantix_cnnector_go.Config.Mappings.{lookup, is_empty}
use quantix_cnnector_go.PrintAgent.{RemotePrintJob}
use quantix_cnnector_go.PrintAgent.Btxml.{build_btxml, positive_copies}

abbrev pub default_candidates : List Bytes
default_candidates =
    codes "C:\\Program Files\\Seagull\\BarTender 2022\\BarTend.exe"
    ∷ codes "C:\\Program Files\\Seagull\\BarTender Suite\\BarTend.exe"
    ∷ codes "C:\\Program Files (x86)\\Seagull\\BarTender 2022\\BarTend.exe"
    ∷ codes "C:\\Program Files (x86)\\Seagull\\BarTender Suite\\BarTend.exe"
    ∷ []

-- filepath.Abs, os.Stat's error, os.CreateTemp's path, WriteString's error on that file, and what
-- running a program prints and how it fails: CombinedOutput has no timeout, and the program is taken to
-- end.
pub record Host : Type 0 where
  pub abs : Bytes → Error ⊎ Bytes
  pub stat : Bytes → Option Error
  pub create_temp : Error ⊎ Bytes
  pub write_string : Bytes → Bytes → Option Error
  pub run : Bytes → List Bytes → Bytes × Option Error

abbrev pub is_there : Option Error → Bool
is_there none = true
is_there (some e) = false

module _ (host : Host) where
  unfoldable pub first_existing : List Bytes → Error ⊎ Bytes
  first_existing [] = inl (errorf (codes "BarTender executable not found"))
  first_existing (candidate ∷ rest) =
      let next = first_existing rest in
      if is_empty candidate
      then next
      else if is_there (host.stat candidate)
      then inr candidate
      else next

  abbrev pub candidates : Bytes → List Bytes
  candidates explicit =
      if is_empty (trim_space explicit)
      then default_candidates
      else trim_space explicit ∷ default_candidates

  unfoldable pub resolve_bartender_executable : Bytes → Error ⊎ Bytes
  unfolding first_existing
  resolve_bartender_executable explicit = first_existing (candidates explicit)

  -- ListBarTenderExecutableCandidates; `seen` is the list so far, which holds what `out` holds.
  abbrev is_in : Bytes → List Bytes → Bool
  is_in x [] = false
  is_in x (y ∷ ys) = eq_bytes y x || is_in x ys

  unfoldable pub list_from : List Bytes → List Bytes → List Bytes
  list_from seen [] = seen
  list_from seen (candidate ∷ rest) =
      let skips =
        is_empty (trim_space candidate)
        || not (is_there (host.stat candidate))
        || is_in candidate seen in
      list_from (if skips then seen else seen ++ candidate ∷ []) rest

  unfoldable pub list_bartender_executable_candidates : List Bytes
  unfolding list_from
  list_bartender_executable_candidates = list_from [] default_candidates

  abbrev absolute : Bytes → Error ⊎ Bytes → Bytes
  absolute path (inl e) = path
  absolute path (inr p) = p

abbrev pub only : Bytes → Bytes → Fields
only key text = field key (string text) end

module _ (lib : Libs) (host : Host) where
  -- The result of a run, and its error.
  abbrev finished : Fields → Option Error → Fields × Option Error
  finished result none = (result, none)
  finished result (some e) = (
    field (codes "exec_error") (string e.text) result,
    some (wrap_errorf (codes "bartender execute failed: " ++ e.text)),
  )

  unfoldable pub run_bartender : Bytes → Bytes → ℤ → Bytes → Bytes → Fields × Option Error
  run_bartender template_path printer_name copies exe_path temp_path =
      let ran = host.run exe_path ((codes "/XMLScript=" ++ temp_path) ∷ codes "/X" ∷ []) in
      finished
        (field (codes "template_path") (string template_path) (
          field (codes "printer_name") (string printer_name) (
            field (codes "copies") (int copies) (
              field (codes "btxml_file") (string temp_path) (
                field (codes "bartender_exe") (string exe_path)
                  (only (codes "output") (trim_space ran.0)))))))
        ran.1

  abbrev refused : Bytes → Error → Fields × Option Error
  refused template_path e = (only (codes "template_path") template_path, some e)

  abbrev script_written : Bytes → Bytes → ℤ → Bytes → Bytes → Option Error → Fields × Option Error
  script_written template_path printer_name copies exe_path temp_path none =
      run_bartender template_path printer_name copies exe_path temp_path
  script_written template_path printer_name copies exe_path temp_path (some e) =
      refused template_path e

  abbrev in_temp : Bytes → Bytes → ℤ → Bytes → Bytes → Error ⊎ Bytes → Fields × Option Error
  in_temp template_path printer_name copies exe_path script (inl e) = refused template_path e
  in_temp template_path printer_name copies exe_path script (inr temp_path) =
      script_written template_path printer_name copies exe_path temp_path
        (host.write_string temp_path script)

  module _ (task : RemotePrintJob) (cfg : PrintAgentSettings) where
    abbrev pub printer_for : Bytes
    printer_for = text_or_default (trim_space task.printer_name) cfg.default_printer_name

    -- What follows once the executable was looked for.
    unfoldable pub execute_with : Bytes → Error ⊎ Bytes → Fields × Option Error
    unfolding positive_copies run_bartender
    execute_with template_path (inl e) = refused template_path e
    execute_with template_path (inr exe_path) =
        in_temp template_path printer_for (positive_copies task.copies) exe_path
          (build_btxml lib template_path printer_for (positive_copies task.copies) task.job_code
            task.payload)
          host.create_temp

    abbrev pub template_for : Bytes
    template_for = trim_space (lookup cfg.template_mappings task.template_code)

    unfoldable pub execute_task : Fields × Option Error
    unfolding execute_with resolve_bartender_executable
    execute_task =
        let template_path = absolute host template_for (host.abs template_for) in
        if is_empty template_for
        then (
          only (codes "template_code") task.template_code,
          some (errorf (codes "template mapping not found: " ++ task.template_code)),
        )
        else if is_there (host.stat template_path)
        then execute_with template_path (resolve_bartender_executable host cfg.bartender_executable)
        else refused template_path (errorf (codes "template not found: " ++ template_path))

-- The semaphore of executeTaskLimited while a job waits for it: how many of its places others hold,
-- whether the job's context ends, and which case the select takes where both are ready.
pub record Wait : Type 0 where
  pub held : ℕ
  pub ended : Option Error
  pub place_first : Bool

pub data Permit : Type 0 where
  granted : Permit
  canceled : Error → Permit
  blocked : Permit

-- currentExecSem
abbrev pub exec_limit : ℤ → ℕ
exec_limit (pos zero) = 1
exec_limit (pos (suc n)) = suc n
exec_limit (negsuc n) = 1

abbrev pub current_exec_sem : Option ℕ → PrintAgentSettings → ℕ
current_exec_sem none cfg = exec_limit cfg.max_concurrent_jobs
current_exec_sem (some n) cfg = n

abbrev pub chosen : Bool → Option Error → Bool → Permit
chosen true none first = granted
chosen false none first = blocked
chosen true (some e) first = if first then granted else canceled e
chosen false (some e) first = canceled e

-- The select of executeTaskLimited on a semaphore of this capacity.
unfoldable pub acquire : ℕ → Wait → Permit
acquire capacity w = chosen (ltb w.held capacity) w.ended w.place_first
