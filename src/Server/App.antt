-- ===== src/Server/App.antt =====
-- nport-server/src/server/implementation.rs and state.rs: from a request that the server accepts to
-- the handler that answers it.
pub mod Laws
mod Tests
use nport.Prelude.{
  ℕ, ◌+◌, Bool, true, false, ◌||◌, Option, none, some, List, [], ◌∷◌, if◌then◌else◌, ltb,
}
use nport.Text.{Text, codes, text_eq}
use nport.Server.Hostnames.{Hostnames}
use nport.Server.State.{World}
use nport.Server.Routing.{Router, api, main, forwarding, choose, Tls, to_tls}

-- config.rs: where the server listens; port 0 is that it does not.
pub record Listen : Type 0 where
  pub address : Text
  pub http : ℕ
  pub https : ℕ

pub record Options : Type 0 where
  pub client_request_timeout_secs : ℕ
  pub send_welcome_message : Bool

-- What the handlers share, but for the memory of `World`.
pub record AppState : Type 0 where
  pub listen : Listen
  pub hostnames : Hostnames
  pub via_tls : Bool
  pub options : Options

-- `AppState::new`, where the templates can be read.
abbrev pub new_state : Listen → Hostnames → Options → AppState
new_state listen hostnames options = record {
  listen = listen;
  hostnames = hostnames;
  via_tls = false;
  options = options;
}

abbrev pub with_tls : AppState → AppState
with_tls state = record state { via_tls = true }

abbrev pub tls_of : AppState → Tls
tls_of state = record { https_port = state.listen.https; via_tls = state.via_tls }

pub record Request : Type 0 where
  pub host : Text
  pub method : Text
  pub path : Text

-- Who answers: a handler, the service of static files, or axum itself where a route does not have
-- the method.
pub data Handler : Type 0 where
  home stats build_info websocket forward static_files method_not_allowed : Handler

pub data Response : Type 0 where
  redirected : (authority : Text) → Response
  handled : Handler → Response

-- `get(handler)`, which also takes `HEAD`.
abbrev pub get : Text → Handler → Handler
get method handler =
    if text_eq method (codes "GET") || text_eq method (codes "HEAD")
    then handler
    else method_not_allowed

-- The routes of the site; none is the fallback.
unfoldable pub main_route : Text → Option Handler
main_route path =
    if text_eq path (codes "/")
    then some home
    else if text_eq path (codes "/stats")
    then some stats
    else if text_eq path (codes "/build_info.json")
    then some build_info
    else none

module _ (is_uri : Text → Text → Bool) (state : AppState) where
  -- `to_tls_middleware` around a route.
  abbrev pub behind_tls : Text → Handler → Response
  behind_tls path handler = elim (to_tls is_uri state.hostnames (tls_of state) path) [
    | some authority ↦ redirected authority
    | none ↦ handled handler
  ]

  abbrev pub route_or_static : Request → Option Handler → Response
  route_or_static request none = handled static_files
  route_or_static request (some handler) = behind_tls request.path (get request.method handler)

  -- The routers of `build_app`; that of the API is only asked for its one path.
  abbrev pub run_router : Request → Router → Response
  run_router request api = behind_tls request.path (get request.method websocket)
  run_router request main = route_or_static request (main_route request.path)
  run_router request forwarding = handled forward

  -- `request_counter` around `chooser`.
  unfoldable pub serve : World → Request → World × Response
  serve w request =
      let stats = w.stats in
      (
        record w { stats = record stats { http_requests_total = stats.http_requests_total + 1 } },
        run_router request (choose state.hostnames request.host request.path),
      )
