-- ===== src/Api/Access.antt =====
-- internal/api/server.go: the API key, the middlewares and what Router guards by them; the update of the
-- key by the tray (cmd/server/main.go: UpdateAPIKey).
pub mod Guarded
pub mod Restart
mod Tests
use quantix_cnnector_go.Prelude.{
  Bool, true, false, ◌&&◌, not, Option, none, some, [], if◌then◌else◌,
}
use quantix_cnnector_go.Prelude.Text.{Bytes, codes, eq_bytes, trim_space}
use quantix_cnnector_go.Value.{null, Result, ok, Error}
use quantix_cnnector_go.Config.{Settings}
use quantix_cnnector_go.Config.Mappings.{is_empty}
use quantix_cnnector_go.Config.Store.{Disk, save_api_key}
use quantix_cnnector_go.Api.{Response, detail}

-- What the server keeps in `apiKey`.
pub record Access : Type 0 where
  pub api_key : Bytes

unfoldable pub new_server : Settings → Access
new_server cfg = record { api_key = trim_space cfg.api_key }

unfoldable pub current_api_key : Access → Bytes
current_api_key s = trim_space s.api_key

unfoldable pub set_api_key : Access → Bytes → Access
set_api_key s v = record s { api_key = trim_space v }

unfoldable pub verify_api_key : Access → Bytes → Bool
unfolding current_api_key
verify_api_key s v =
    let current = current_api_key s in
    if is_empty current then true else eq_bytes (trim_space v) current

-- The groups of routes: the first seven need the key.
pub data Route : Type 0 where
  devices protocols categories serial_debug print_agent remote_print local_file : Route
  health index static openapi docs ws : Route

unfoldable pub is_protected : Route → Bool
is_protected health = false
is_protected index = false
is_protected static = false
is_protected openapi = false
is_protected docs = false
is_protected ws = false
is_protected route = true

pub record Request : Type 0 where
  pub method : Bytes
  pub route : Route
  -- The header X-API-Key and the query api_key, empty where they are missing.
  pub header : Bytes
  pub query : Bytes

abbrev pub no_content : Response
no_content = record { status = 204; body = null }

abbrev pub unauthorized : Response
unauthorized = detail 401 (codes "Invalid API key")

-- requireAPIKey: the key that a request presents, and whether it goes on.
abbrev pub presented : Request → Bytes
presented req = if is_empty req.header then req.query else req.header

unfoldable pub require_api_key : Access → Request → Option Response
unfolding verify_api_key
require_api_key s req = if verify_api_key s (presented req) then none else some unauthorized

-- W is the state of the services.
abbrev pub Handler : Type 0 → Type 0
Handler W = W → Result Response × W

abbrev pub unless : {W : Type 0} → Option Response → Handler W → W → Result Response × W
unless none handler w = handler w
unless (some r) handler w = (ok r, w)

-- A request's way through Router to the handler of its route.
unfoldable pub serve : {W : Type 0} → Access → Request → Handler W → W → Result Response × W
unfolding require_api_key is_protected
serve s req handler w =
    if eq_bytes req.method (codes "OPTIONS")
    then (ok no_content, w)
    else if is_protected req.route
    then unless (require_api_key s req) handler w
    else handler w

-- The new key holds at once, and is saved for the next start.
unfoldable pub update_api_key :
    Disk → Access → Option Bytes → Bytes → Option Error × (Access × Option Bytes)
unfolding set_api_key save_api_key
update_api_key disk s file v =
    let saved = save_api_key disk file v in (saved.0, (set_api_key s v, saved.1))
