-- ===== src/Server/App/Tests.antt =====
-- The page of counters at http://nport.io:80, on a server that has TLS.
use nport.Prelude.{◌≡◌, ◌≢◌, refl, true, false, some, []}
use nport.Text.{Text, codes, text_eq}
use nport.Server.State.{World}
use nport.Server.Session.Reachable.{empty_world}
use nport.Server.Routing.{choose, main, forwarding, host_of, rsplit_once, to_tls}
use nport.Server.App.{
  AppState, with_tls, Request, Handler, redirected, handled, forward, get, main_route, serve,
}
use nport.Server.App.Laws.{redirect_served}

abbrev state : AppState
state = record {
  listen = record { address = codes "127.0.0.1"; http = 80; https = 443 };
  hostnames = record {
    domain = codes "nport.io";
    api = codes "api";
    tcp = codes "tcp";
    api_hostname = codes "api.nport.io";
    tcp_hostname = codes "tcp.nport.io";
    subdomain_blocklist = [];
  };
  via_tls = false;
  options = record { client_request_timeout_secs = 30; send_welcome_message = true };
}

abbrev request : Request
request = record { host = codes "nport.io:80"; method = codes "GET"; path = codes "/stats" }

for_site : choose state.hostnames request.host request.path ≡ main
unfolding choose host_of rsplit_once text_eq
for_site = refl

is_redirected : (serve (λ a p. true) state empty_world request).1 ≡ redirected (codes "nport.io")
unfolding serve choose host_of rsplit_once text_eq main_route to_tls
is_redirected = refl

redirect_served_example :
    (handler : Handler) × (main_route (codes "/stats") ≡ some handler)
    × ((w' : World)
        → (serve (λ a p. true) (with_tls state) w' (record request { host = codes "nport.io" })).1
          ≡ handled (get (codes "GET") handler))
    × ((w' : World) (other : Request) (a : Text)
        → (serve (λ a p. true) (with_tls state) w' other).1 ≢ redirected a)
    × ((other : Request)
        → choose state.hostnames other.host other.path ≡ forwarding
        → (serve (λ a p. true) state empty_world other).1 ≡ handled forward)
redirect_served_example =
    redirect_served (λ a p. true) state empty_world request (codes "nport.io") refl for_site
      is_redirected
