-- ===== src/Api/Access/Guarded.antt =====
-- What requests without the key can do (internal/api/server.go: Router, requireAPIKey).
use quantix_cnnector_go.Prelude.{
  ◌≡◌, ◌≢◌, refl, true, false, Bool-cases, List, [], ◌∷◌, ◌⊎◌, inl, inr, if◌then◌else◌,
}
use quantix_cnnector_go.Prelude.Text.{Bytes, codes, eq_bytes, eq_bytes_iff, trim_space}
use quantix_cnnector_go.Value.{Result, ok}
use quantix_cnnector_go.Config.Mappings.{is_empty}
use quantix_cnnector_go.Api.{Response}
use quantix_cnnector_go.Api.Access.{
  Access, Route, devices, protocols, categories, serial_debug, print_agent, remote_print,
  local_file, Request, Handler, current_api_key, set_api_key, verify_api_key, is_protected,
  require_api_key, unauthorized, no_content, presented, serve,
}

-- The groups that the key is for.
pub data IsGuarded : Route → Type 0 where
  on_devices : IsGuarded devices
  on_protocols : IsGuarded protocols
  on_categories : IsGuarded categories
  on_serial_debug : IsGuarded serial_debug
  on_print_agent : IsGuarded print_agent
  on_remote_print : IsGuarded remote_print
  on_local_file : IsGuarded local_file

is_protected-IsGuarded : {route : Route} → IsGuarded route → is_protected route ≡ true
unfolding is_protected
is_protected-IsGuarded on_devices = refl
is_protected-IsGuarded on_protocols = refl
is_protected-IsGuarded on_categories = refl
is_protected-IsGuarded on_serial_debug = refl
is_protected-IsGuarded on_print_agent = refl
is_protected-IsGuarded on_remote_print = refl
is_protected-IsGuarded on_local_file = refl

-- A request that the key was not stated with, in the header or else in the query.
pub record IsKeyless (s : Access) (req : Request) : Type 0 where
  pub keyed : current_api_key s ≢ []
  pub guarded : IsGuarded req.route
  pub in_header : trim_space req.header ≢ current_api_key s
  pub in_query : trim_space req.query ≢ current_api_key s

presented-ne :
    (s : Access) (req : Request) → IsKeyless s req → trim_space (presented req) ≢ current_api_key s
presented-ne s req k = elim (Bool-cases (is_empty req.header)) [
  | inl e ↦ rw e k.in_query
  | inr e ↦ rw e k.in_header
]

differs : (a b : Bytes) → a ≢ b → eq_bytes a b ≡ false
differs a b h = elim (Bool-cases (eq_bytes a b)) [
  | inl e ↦ absurd (h ((eq_bytes_iff a b).0 e))
  | inr e ↦ e
]

not_open : (a b : Bytes) → b ≢ [] → a ≢ b → (if is_empty b then true else eq_bytes a b) ≡ false
not_open a [] h k = absurd (h refl)
not_open a (c ∷ b) h k = differs a (c ∷ b) k

verify_api_key-IsKeyless :
    (s : Access) (req : Request) → IsKeyless s req → verify_api_key s (presented req) ≡ false
unfolding verify_api_key
verify_api_key-IsKeyless s req k = not_open _ _ k.keyed (presented-ne s req k)

-- What a server meets: requests, and changes of its key.
pub data Event : Type 0 where
  asks : Request → Event
  rekeys : Bytes → Event

abbrev pub AllKeyless : Access → List Event → Type 0
AllKeyless s [] = Unit {0}
AllKeyless s (asks req ∷ events) = IsKeyless s req × AllKeyless s events
AllKeyless s (rekeys v ∷ events) = AllKeyless (set_api_key s v) events

abbrev pub AllRefused : List (Result Response) → Type 0
AllRefused [] = Unit {0}
AllRefused (r ∷ rs) = ((r ≡ ok unauthorized) ⊎ (r ≡ ok no_content)) × AllRefused rs

module _ {W : Type 0} (handlers : Request → Handler W) where
  -- The answers to these events, and the services after them.
  abbrev pub serve_all : Access → W → List Event → List (Result Response) × W
  serve_all s w [] = ([], w)
  serve_all s w (asks req ∷ events) =
      let (answer, w') = serve s req (handlers req) w in
      let (answers, last) = serve_all s w' events in (answer ∷ answers, last)
  serve_all s w (rekeys v ∷ events) = serve_all (set_api_key s v) w events

  serve-IsKeyless :
      (s : Access) (req : Request) (w : W)
      → IsKeyless s req
      → (serve s req (handlers req) w ≡ (ok unauthorized, w))
        ⊎ (serve s req (handlers req) w ≡ (ok no_content, w))
  unfolding serve require_api_key
  serve-IsKeyless s req w k = elim (Bool-cases (eq_bytes req.method (codes "OPTIONS"))) [
    | inl e ↦ inr (rw e refl)
    | inr e ↦ inl (rw (e, is_protected-IsGuarded k.guarded, verify_api_key-IsKeyless s req k) refl)
  ]

  -- Requests for devices, protocols, categories, the serial debugger, the print agent, remote prints
  -- and local files that do not state the key that is set at their time, in the header or else in the
  -- query, are all refused and leave the services as they are, in any order and among any changes of
  -- the key. An empty key guards nothing.
  pub serve_all-AllKeyless :
      (s : Access) (w : W) (events : List Event)
      → AllKeyless s events
      → AllRefused (serve_all s w events).0 × ((serve_all s w events).1 ≡ w)
  serve_all-AllKeyless s w [] k = (tt, refl)
  serve_all-AllKeyless s w (rekeys v ∷ events) k = serve_all-AllKeyless (set_api_key s v) w events k
  serve_all-AllKeyless s w (asks req ∷ events) k = elim (serve-IsKeyless s req w k.0) [
    | inl e ↦
        rw e (let later = serve_all-AllKeyless s w events k.1 in ((inl refl, later.0), later.1))
    | inr e ↦
        rw e (let later = serve_all-AllKeyless s w events k.1 in ((inr refl, later.0), later.1))
  ]
