-- ===== src/Api/Access/Restart.antt =====
-- The API key that the tray sets (cmd/server/main.go: UpdateAPIKey), over a restart of the server.
use quantix_cnnector_go.Prelude.{
  ◌≡◌, refl, Bool, true, ◌||◌, if◌then◌else◌, Option, none, some, [], ◌∷◌,
}
use quantix_cnnector_go.Prelude.Int.{ℤ}
use quantix_cnnector_go.Prelude.Text.{Bytes, codes, eq_bytes, trim_space}
use quantix_cnnector_go.Prelude.Text.Trim.{trim_space-trim_space}
use quantix_cnnector_go.Config.{getenv, text_or_default}
use quantix_cnnector_go.Config.Mappings.{is_empty}
use quantix_cnnector_go.Config.Store.{Disk, load, load_local_config, save_api_key}
use quantix_cnnector_go.Config.Saved.{Keeps, save_local_config-Keeps}
use quantix_cnnector_go.Api.Access.{
  Access, new_server, current_api_key, set_api_key, verify_api_key, update_api_key,
}

-- The dev key is what Load falls back to.
abbrev pub dev_key : Bytes
dev_key = codes "quantix-dev-key"

set_api_key-current : (s : Access) (v : Bytes) → current_api_key (set_api_key s v) ≡ trim_space v
unfolding current_api_key set_api_key
set_api_key-current s v = trim_space-trim_space v

open_or_same : (a : Bytes) (b : Bool) → (if is_empty a then true else b) ≡ (is_empty a || b)
open_or_same [] b = refl
open_or_same (c ∷ a) b = refl

trimmed_or_dev :
    (a : Bytes)
    → trim_space a ≡ a
    → trim_space (text_or_default a dev_key) ≡ text_or_default a dev_key
unfolding trim_space
trimmed_or_dev [] h = refl
trimmed_or_dev (c ∷ a) h = h

module _ (disk : Disk) (env : Bytes → Bytes) (strconv_atoi : Bytes → Option ℤ) where
  -- The server that starts on this local file.
  abbrev pub started : Option Bytes → Access
  started file = new_server (load disk env strconv_atoi file)

  module _ (file : Option Bytes) (s : Access) (v text : Bytes)
      (keeps : Keeps disk file
        (record (load_local_config disk file) { api_key = trim_space v })
        text)
      (unset : trim_space (env (codes "API_KEY")) ≡ []) where
    saves : update_api_key disk s file v ≡ (none, (set_api_key s v, some text))
    unfolding update_api_key save_api_key
    saves = rw (save_local_config-Keeps disk file _ text keeps).0 refl

    reads :
        current_api_key (started (some text))
        ≡ trim_space (trim_space (text_or_default (trim_space (trim_space v)) dev_key))
    unfolding new_server load current_api_key getenv
    reads = rw (unset, (save_local_config-Keeps disk file _ text keeps).1) refl

    -- A key that the tray saves is, trimmed, the server's key at once and after the next start; but if it
    -- is blank, every key is let in, until the next start makes it "quantix-dev-key". The environment has no API_KEY, the disk takes the file, and encoding/json
    -- reads back what it wrote.
    pub update_api_key-restarted :
        (key : Bytes)
        → (update_api_key disk s file v ≡ (none, (set_api_key s v, some text)))
          × (current_api_key (set_api_key s v) ≡ trim_space v)
          × (verify_api_key (set_api_key s v) key
              ≡ (is_empty (trim_space v) || eq_bytes (trim_space key) (trim_space v)))
          × (current_api_key (started (some text)) ≡ text_or_default (trim_space v) dev_key)
    unfolding verify_api_key
    update_api_key-restarted key = (
      saves,
      set_api_key-current s v,
      rw (set_api_key-current s v) (open_or_same (trim_space v) _),
      let ended = trimmed_or_dev (trim_space v) (trim_space-trim_space v) in
          rw (reads, trim_space-trim_space v, ended, ended) refl,
    )
