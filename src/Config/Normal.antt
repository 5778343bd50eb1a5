-- ===== src/Config/Normal.antt =====
-- Settings that were normalized (normalizePrintAgentSettings).
use quantix_cnnector_go.Prelude.{ℕ, suc, ◌≡◌, refl, sym, subst, ◌≢◌, ◌==◌, [], ◌∷◌, arith}
use quantix_cnnector_go.Prelude.Int.{ℤ, pos, negsuc, ◌≤ℤ◌}
use quantix_cnnector_go.Prelude.Text.{Bytes, codes, trim_space}
use quantix_cnnector_go.Prelude.Text.Trim.{trim_space-trim_space, trim_right-trim_right}
use quantix_cnnector_go.Config.{
  PrintAgentSettings, normalize_print_agent_settings, trim_slashes, text_or_default, positive_or,
  at_most_eight,
}
use quantix_cnnector_go.Config.Mappings.{IsClean, clean-IsClean, clean-clean}

pub record IsNormal (s : PrintAgentSettings) : Type 0 where
  pub typed : s.job_type ≢ []
  pub polls : pos 1 ≤ℤ s.poll_interval_ms
  pub waits : pos 1 ≤ℤ s.long_poll_ms
  pub works : pos 1 ≤ℤ s.max_concurrent_jobs
  pub bounded : s.max_concurrent_jobs ≤ℤ pos 8
  pub mapped : IsClean s.template_mappings

pub positive_or_pos : (n : ℤ) (k : ℕ) → pos 1 ≤ℤ positive_or n (pos (suc k))
positive_or_pos (pos n) k = ground arith
positive_or_pos (negsuc n) k = ground arith

pub at_most_eight_pos : (n : ℤ) → pos 1 ≤ℤ n → pos 1 ≤ℤ at_most_eight n
at_most_eight_pos (pos n) h = ground arith
at_most_eight_pos (negsuc n) h = ground arith

at_most_eight_le : (n : ℤ) → at_most_eight n ≤ℤ pos 8
at_most_eight_le (pos n) = ground arith
at_most_eight_le (negsuc n) = ground arith

text_or_default-cons : (s : Bytes) (c : ℕ) (t : Bytes) → text_or_default s (c ∷ t) ≢ []
text_or_default-cons [] c t h = cc
text_or_default-cons (x ∷ s) c t h = cc

-- Normalized settings name a job type, poll and wait for a positive time, run between one and eight
-- jobs at once, and map trimmed codes that are not empty to trimmed paths that are not, each
-- code once.
pub normalize_print_agent_settings-IsNormal :
    (s : PrintAgentSettings) → IsNormal (normalize_print_agent_settings s)
unfolding normalize_print_agent_settings
normalize_print_agent_settings-IsNormal s = record {
  typed = text_or_default-cons (trim_space s.job_type) b'b' (codes "artender");
  polls = positive_or_pos s.poll_interval_ms 1999;
  waits = positive_or_pos s.long_poll_ms 14999;
  works =
      at_most_eight_pos (positive_or s.max_concurrent_jobs (pos 1))
        (positive_or_pos s.max_concurrent_jobs 0);
  bounded = at_most_eight_le (positive_or s.max_concurrent_jobs (pos 1));
  mapped = clean-IsClean [] s.template_mappings tt;
}

positive_or-positive_or :
    (n : ℤ) (k : ℕ)
    → positive_or (positive_or n (pos (suc k))) (pos (suc k)) ≡ positive_or n (pos (suc k))
positive_or-positive_or (pos n) k = ground arith
positive_or-positive_or (negsuc n) k = ground arith

concurrent-again :
    (n : ℤ)
    → at_most_eight (positive_or (at_most_eight (positive_or n (pos 1))) (pos 1))
      ≡ at_most_eight (positive_or n (pos 1))
concurrent-again (pos n) = ground arith
concurrent-again (negsuc n) = ground arith

job_type-trimmed :
    (t : Bytes)
    → trim_space t ≡ t
    → text_or_default (trim_space (text_or_default t (codes "bartender"))) (codes "bartender")
      ≡ text_or_default t (codes "bartender")
unfolding trim_space
job_type-trimmed [] h = refl
job_type-trimmed (c ∷ t) h = subst (λ x. text_or_default x (codes "bartender") ≡ c ∷ t) (sym h) refl

job_type-again :
    (s : Bytes)
    → text_or_default
        (trim_space (text_or_default (trim_space s) (codes "bartender")))
        (codes "bartender")
      ≡ text_or_default (trim_space s) (codes "bartender")
job_type-again s = job_type-trimmed (trim_space s) (trim_space-trim_space s)

pub server_url-again :
    (u : Bytes)
    → trim_space (trim_slashes u) ≡ trim_slashes u
    → trim_slashes (trim_space (trim_slashes u)) ≡ trim_slashes u
server_url-again u h = rw h (trim_right-trim_right (λ c. c == b'/') u)

-- Normalizing settings again changes nothing, unless the slashes at the end of the server's URL
-- come after a space.
pub normalize-normalize :
    (s : PrintAgentSettings)
    → trim_space (trim_slashes (trim_space s.server_url)) ≡ trim_slashes (trim_space s.server_url)
    → normalize_print_agent_settings (normalize_print_agent_settings s)
      ≡ normalize_print_agent_settings s
unfolding normalize_print_agent_settings
normalize-normalize s h =
    rw
      (
        server_url-again (trim_space s.server_url) h,
        trim_space-trim_space s.agent_api_key,
        trim_space-trim_space s.client_id,
        job_type-again s.job_type,
        trim_space-trim_space s.default_printer_name,
        trim_space-trim_space s.bartender_executable,
        positive_or-positive_or s.poll_interval_ms 1999,
        positive_or-positive_or s.long_poll_ms 14999,
        concurrent-again s.max_concurrent_jobs,
        clean-clean s.template_mappings,
      )
      refl
