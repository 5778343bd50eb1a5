-- ===== src/Api/Agent/Kept.antt =====
-- Settings of the print agent that are put over HTTP, over a restart (internal/api/print_agent.go).
use quantix_cnnector_go.Prelude.{
  Bool, true, false, ℕ, ◌≡◌, refl, sym, ap, subst, ◌∙◌, Bool-cases, inl, inr, Option, none, some,
  [], ◌∷◌, arith,
}
use quantix_cnnector_go.Prelude.Int.{ℤ, pos, negsuc, ◌≤ℤ◌}
use quantix_cnnector_go.Prelude.Text.{Bytes, codes, trim_space}
use quantix_cnnector_go.Prelude.Text.Trim.{trim_space-trim_space}
use quantix_cnnector_go.Value.{Result, Error, ok, ◌>>=◌}
use quantix_cnnector_go.Config.{
  positive_or, PrintAgentSettings, normalize_print_agent_settings, trim_slashes, text_or_default,
}
use quantix_cnnector_go.Config.Normal.{
  normalize_print_agent_settings-IsNormal, normalize-normalize, server_url-again,
}
use quantix_cnnector_go.Config.Store.{Disk, load, load_local_config}
use quantix_cnnector_go.Config.Saved.{Keeps, load-save_print_agent_settings}
use quantix_cnnector_go.PrintAgent.{
  PrintAgentService, normalize_agent_cfg, make_chan, current_config,
}
use quantix_cnnector_go.PrintAgent.Lifecycle.{
  start_locked, update_begin, update_finish, update_config, configured, waited,
}
use quantix_cnnector_go.Api.Agent.{gives, update_print_agent_config}

job_type-trim :
    (t : Bytes)
    → trim_space t ≡ t
    → trim_space (text_or_default t (codes "bartender")) ≡ text_or_default t (codes "bartender")
unfolding trim_space
job_type-trim [] h = refl
job_type-trim (c ∷ t) h = h

-- To the agent normalized settings are as they should be.
normalize_agent_cfg-normalize :
    (r : PrintAgentSettings)
    → trim_space (trim_slashes (trim_space r.server_url)) ≡ trim_slashes (trim_space r.server_url)
    → normalize_agent_cfg (normalize_print_agent_settings r) ≡ normalize_print_agent_settings r
unfolding normalize_agent_cfg normalize_print_agent_settings
normalize_agent_cfg-normalize r h =
    rw
      (
        server_url-again (trim_space r.server_url) h,
        trim_space-trim_space r.agent_api_key,
        trim_space-trim_space r.client_id,
        job_type-trim (trim_space r.job_type) (trim_space-trim_space r.job_type),
        trim_space-trim_space r.default_printer_name,
        trim_space-trim_space r.bartender_executable,
      )
      refl

abbrev places : ℤ → ℕ
places (pos n) = n
places (negsuc n) = 0

make_chan-pos : (n : ℤ) → pos 1 ≤ℤ n → make_chan n ≡ ok (some (places n))
unfolding make_chan
make_chan-pos (pos n) h = refl
make_chan-pos (negsuc n) h = ground arith

start_locked-cfg : (s : PrintAgentService) (c : PrintAgentSettings) → (start_locked s c).cfg ≡ s.cfg
unfolding start_locked
start_locked-cfg s c = elim (Bool-cases c.enabled) [ inl e ↦ rw e refl | inr e ↦ rw e refl ]

update_finish-cfg :
    (e : Option Error) (s : PrintAgentService) (c : PrintAgentSettings)
    → (update_finish e s c).cfg ≡ s.cfg
update_finish-cfg (some e) s c = refl
update_finish-cfg none s c = start_locked-cfg s (normalize_agent_cfg c)

-- The agent after an update: with n as its settings.
abbrev updated : (ℕ → Option Error) → PrintAgentService → PrintAgentSettings → PrintAgentService
updated waits s n =
    update_finish (waited waits s.done) (configured s n (some (places n.max_concurrent_jobs))) n

abbrev begin_with : PrintAgentService → PrintAgentSettings → Result PrintAgentService
begin_with s c = make_chan c.max_concurrent_jobs >>= (λ sem. ok (configured s c sem))

update_begin-IsNormal :
    (s : PrintAgentService) (n : PrintAgentSettings)
    → normalize_agent_cfg n ≡ n
    → pos 1 ≤ℤ n.max_concurrent_jobs
    → update_begin s n ≡ ok (configured s n (some (places n.max_concurrent_jobs)))
unfolding update_begin
update_begin-IsNormal s n same h =
    ap (begin_with s) same ∙ ap (λ r. r >>= (λ sem. ok (configured s n sem))) (make_chan-pos _ h)

update_config-IsNormal :
    (waits : ℕ → Option Error) (s : PrintAgentService) (n : PrintAgentSettings)
    → normalize_agent_cfg n ≡ n
    → pos 1 ≤ℤ n.max_concurrent_jobs
    → update_config waits s n ≡ ok (updated waits s n)
unfolding update_config
update_config-IsNormal waits s n same h =
    ap (λ r. r >>= (λ d. ok (update_finish (waited waits s.done) d n)))
      (update_begin-IsNormal s n same h)

updated-cfg :
    (waits : ℕ → Option Error) (s : PrintAgentService) (n : PrintAgentSettings)
    → (updated waits s n).cfg ≡ n
unfolding configured
updated-cfg waits s n = update_finish-cfg (waited waits s.done) _ n

-- The workers after an update, by how the wait for the old ones ended and whether the agent is enabled:
-- a new group, as large as the settings say, or none.
abbrev pub Works :
    PrintAgentService → PrintAgentSettings → PrintAgentService → Option Error → Bool → Type 0
Works s n s' none true =
    (s'.cancel ≡ some s.next_group)
    × (s'.done ≡ some s.next_group)
    × (s'.status.running ≡ true)
    × (s'.status.worker_count ≡ n.max_concurrent_jobs)
Works s n s' none false = (s'.cancel ≡ none) × (s'.done ≡ none) × (s'.status.running ≡ false)
Works s n s' (some e) b = (s'.cancel ≡ none) × (s'.done ≡ none) × (s'.status.running ≡ false)

positive_or-pos : (n : ℤ) → pos 1 ≤ℤ n → positive_or n (pos 1) ≡ n
positive_or-pos (pos n) h = ground arith
positive_or-pos (negsuc n) h = ground arith

finished-Works :
    (s : PrintAgentService) (n : PrintAgentSettings) (e : Option Error) (b : Bool)
    → normalize_agent_cfg n ≡ n
    → pos 1 ≤ℤ n.max_concurrent_jobs
    → n.enabled ≡ b
    → Works s n (update_finish e (configured s n (some (places n.max_concurrent_jobs))) n) e b
unfolding start_locked configured
finished-Works s n (some e) b same h on = (refl, refl, refl)
finished-Works s n none true same h on =
    rw (same, on) (refl, refl, refl, positive_or-pos n.max_concurrent_jobs h)
finished-Works s n none false same h on = rw (same, on) (refl, refl, refl)

-- What normalized settings are good for.
record IsSettled (n : PrintAgentSettings) : Type 0 where
  again : normalize_print_agent_settings n ≡ n
  for_agent : normalize_agent_cfg n ≡ n
  url : trim_space (trim_slashes (trim_space n.server_url)) ≡ trim_slashes (trim_space n.server_url)
  works : pos 1 ≤ℤ n.max_concurrent_jobs

normalize-url :
    (u : Bytes)
    → trim_space (trim_slashes u) ≡ trim_slashes u
    → trim_space (trim_slashes (trim_space (trim_slashes u)))
      ≡ trim_slashes (trim_space (trim_slashes u))
normalize-url u h = rw (server_url-again u h) h

normalize-IsSettled :
    (r : PrintAgentSettings)
    → trim_space (trim_slashes (trim_space r.server_url)) ≡ trim_slashes (trim_space r.server_url)
    → IsSettled (normalize_print_agent_settings r)
unfolding normalize_print_agent_settings
normalize-IsSettled r h = record {
  again = normalize-normalize r h;
  for_agent = normalize_agent_cfg-normalize r h;
  url = normalize-url (trim_space r.server_url) h;
  works = (normalize_print_agent_settings-IsNormal r).works;
}

module _ (disk : Disk) (env : Bytes → Bytes) (strconv_atoi : Bytes → Option ℤ)
    (waits : ℕ → Option Error) where
  -- Normalized settings that are put over HTTP are given back as they are, are the agent's settings
  -- from then on, and are those that the next start loads. If they enable the agent and the old
  -- workers end in time, a new group of as many workers as they say is started; else none is left
  -- that can be canceled, and the status does not say that the agent runs. The disk takes the file,
  -- encoding/json reads back what it wrote, and the slashes at the end of the server's URL did not
  -- come after a space.
  pub update_print_agent_config-Keeps :
      (file : Option Bytes) (s : PrintAgentService) (r n : PrintAgentSettings) (text : Bytes)
      → n ≡ normalize_print_agent_settings r
      → trim_space (trim_slashes (trim_space r.server_url)) ≡ trim_slashes (trim_space r.server_url)
      → Keeps disk file (record (load_local_config disk file) { print_agent = n }) text
      → (s' : PrintAgentService) × (update_print_agent_config disk waits file (some s) (inr n)
          ≡ (ok (gives n, some s'), some text))
        × (current_config s' ≡ n)
        × Works s n s' (waited waits s.done) n.enabled
        × ((load disk env strconv_atoi (some text)).print_agent ≡ n)
  unfolding update_print_agent_config current_config
  update_print_agent_config-Keeps file s r n text e url k =
      let settled : IsSettled n = subst IsSettled (sym e) (normalize-IsSettled r url) in
      let stored =
        load-save_print_agent_settings disk env strconv_atoi file n text
          (subst
            (λ x. Keeps disk file (record (load_local_config disk file) { print_agent = x }) text)
            (sym settled.again) k)
          settled.url in
      let runs = updated-cfg waits s n in
      let keeps : current_config (updated waits s n) ≡ n = rw runs settled.for_agent in
      (
        updated waits s n,
        rw (stored.0, update_config-IsNormal waits s n settled.for_agent settled.works, keeps) refl,
        keeps,
        finished-Works s n (waited waits s.done) n.enabled settled.for_agent settled.works refl,
        stored.1 ∙ settled.again,
      )
