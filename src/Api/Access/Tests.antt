-- ===== src/Api/Access/Tests.antt =====
-- Requests with and without the key (internal/api/server.go).
use quantix_cnnector_go.Prelude.{ℕ, suc, ◌≡◌, refl, ◌||◌, none, some, List, [], ◌∷◌, inr}
use quantix_cnnector_go.Prelude.Text.{Bytes, codes, eq_bytes, trim_space}
use quantix_cnnector_go.Value.{end, ok}
use quantix_cnnector_go.Config.{text_or_default}
use quantix_cnnector_go.Config.Mappings.{is_empty}
use quantix_cnnector_go.Config.Store.{Disk, LocalConfig, no_config, load_local_config}
use quantix_cnnector_go.Config.Saved.{Keeps}
use quantix_cnnector_go.Api.{answer}
use quantix_cnnector_go.Api.Access.{
  Access, Request, Handler, devices, current_api_key, set_api_key, verify_api_key, update_api_key,
  serve,
}
use quantix_cnnector_go.Api.Access.Guarded.{
  on_devices, Event, asks, rekeys, serve_all, AllRefused, AllKeyless, serve_all-AllKeyless,
}
use quantix_cnnector_go.Api.Access.Restart.{dev_key, started, update_api_key-restarted}

abbrev server : Access
server = record { api_key = codes "secret" }

abbrev asking : Bytes → Request
asking key = record { method = codes "GET"; route = devices; header = key; query = [] }

-- Each request that gets through is counted.
abbrev counting : Request → Handler ℕ
counting req n = (ok (answer end), suc n)

lets_in : serve server (asking (codes " secret ")) (counting (asking [])) 0 ≡ (ok (answer end), 1)
unfolding serve trim_space eq_bytes
lets_in = refl

abbrev attempts : List Event
attempts =
    asks (asking (codes "guess")) ∷ rekeys (codes "other") ∷ asks (asking (codes "secret")) ∷ []

turned_away : AllKeyless server attempts
unfolding current_api_key set_api_key trim_space
turned_away = (
  record { keyed = cc; guarded = on_devices; in_header = cc; in_query = cc },
  (record { keyed = cc; guarded = on_devices; in_header = cc; in_query = cc }, tt),
)

serve_all-AllKeyless_example :
    AllRefused (serve_all counting server 7 attempts).0
    × ((serve_all counting server 7 attempts).1 ≡ 7)
serve_all-AllKeyless_example = serve_all-AllKeyless counting server 7 attempts turned_away

-- A disk that holds one configuration, the one with this key.
abbrev holding : Bytes → LocalConfig
holding key = record no_config { api_key = key }

abbrev disk_of : Bytes → Disk
disk_of key = record {
  unmarshal = λ text. some (holding key);
  marshal_indent = λ cfg. inr (codes "{}");
  write_file = λ file text. (none, some text);
}

keeps : Keeps (disk_of (codes "new")) none (holding (codes "new")) (codes "{}")
keeps = record { encodes = refl; decodes = refl; writes = refl }

update_api_key-restarted_example :
    (update_api_key (disk_of (codes "new")) server none (codes "new ")
      ≡ (none, (set_api_key server (codes "new "), some (codes "{}"))))
    × (current_api_key (set_api_key server (codes "new ")) ≡ trim_space (codes "new "))
    × (verify_api_key (set_api_key server (codes "new ")) (codes "guess") ≡ (
        is_empty (trim_space (codes "new "))
        || eq_bytes (trim_space (codes "guess")) (trim_space (codes "new "))))
    × (current_api_key (started (disk_of (codes "new")) (λ k. []) (λ t. none) (some (codes "{}")))
        ≡ text_or_default (trim_space (codes "new ")) dev_key)
unfolding trim_space load_local_config
update_api_key-restarted_example =
    update_api_key-restarted (disk_of (codes "new")) (λ k. []) (λ t. none) none server
      (codes "new ") (codes "{}") keeps refl (codes "guess")
