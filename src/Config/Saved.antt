-- ===== src/Config/Saved.antt =====
-- What Load finds after the local file was saved.
use quantix_cnnector_go.Prelude.{◌≡◌, refl, inr, Option, none, some}
use quantix_cnnector_go.Prelude.Int.{ℤ}
use quantix_cnnector_go.Prelude.Text.{Bytes, trim_space}
use quantix_cnnector_go.Config.{PrintAgentSettings, normalize_print_agent_settings, trim_slashes}
use quantix_cnnector_go.Config.Normal.{normalize-normalize}
use quantix_cnnector_go.Config.Store.{
  Disk, LocalConfig, load, load_local_config, save_local_config, save_print_agent_settings,
}

-- A configuration that encoding/json writes and reads back, on a disk that takes it.
pub record Keeps (disk : Disk) (file : Option Bytes) (cfg : LocalConfig) (text : Bytes)
    : Type 0 where
  pub encodes : disk.marshal_indent cfg ≡ inr text
  pub decodes : disk.unmarshal text ≡ some cfg
  pub writes : disk.write_file file text ≡ (none, some text)

pub save_local_config-Keeps :
    (disk : Disk) (file : Option Bytes) (cfg : LocalConfig) (text : Bytes)
    → Keeps disk file cfg text
    → (save_local_config disk file cfg ≡ (none, some text))
      × (load_local_config disk (some text) ≡ cfg)
unfolding save_local_config load_local_config
save_local_config-Keeps disk file cfg text k = (rw (k.encodes, k.writes) refl, rw k.decodes refl)

module _ (disk : Disk) (env : Bytes → Bytes) (strconv_atoi : Bytes → Option ℤ) where
  -- Settings of the print agent that were saved are loaded as they were normalized, and saving
  -- them keeps the API key, unless the slashes at the end of the server's URL come after a space.
  pub load-save_print_agent_settings :
      (file : Option Bytes) (s : PrintAgentSettings) (text : Bytes)
      → Keeps disk file
          (record (load_local_config disk file) { print_agent = normalize_print_agent_settings s })
          text
      → trim_space (trim_slashes (trim_space s.server_url)) ≡ trim_slashes (trim_space s.server_url)
      → (save_print_agent_settings disk file s ≡ (none, some text))
        × ((load disk env strconv_atoi (some text)).print_agent ≡ normalize_print_agent_settings s)
        × ((load disk env strconv_atoi (some text)).api_key
            ≡ (load disk env strconv_atoi file).api_key)
  unfolding save_print_agent_settings load
  load-save_print_agent_settings file s text k url =
      let kept =
        save_local_config-Keeps disk file
          (record (load_local_config disk file) { print_agent = normalize_print_agent_settings s })
          text k in
      (kept.0, rw kept.1 (normalize-normalize s url), rw kept.1 refl)
