-- ===== src/Server/Msghandlers/Tests.antt =====
-- Tests and instances for the handlers.
use nport.Prelude.{
  inr, ℕ, ◌≡◌, ◌≢◌, refl, true, none, some, List, [], ◌∷◌, ok, err, arith, ◌==◌, if◌then◌else◌,
}
use nport.Text.{codes, text_eq}
use nport.Text.Lowercase.{ascii_lowercase}
use nport.StringMap
use nport.Messages.{Address}
use nport.Messages.Client.{HttpOpen, HttpClose, HttpResponse, PortOpen}
use nport.Messages.Server.{PortOpened, port_opened, port_open_error_raw, host_not_allowed}
use nport.Server.Hostnames.{Hostnames}
use nport.Server.State.{World}
use nport.Server.Env.{Env}
use nport.Server.Client.{register_http_request, send_http_response, no_request}
use nport.Server.Client.Laws.{pending, send_http_response_once}
use nport.Server.Registry.{register}
use nport.Server.Registry.Invariant.{Inv}
use nport.Server.Registry.Preservation.{register-Inv}
use nport.Server.Registry.Ownership.{view, release, is_owner}
use nport.Server.Msghandlers.Http.{open_forwarding, close_forwarding}
use nport.Server.Msghandlers.Port.{open_port}
use nport.Server.Msghandlers.Port
use nport.Addr.SmallNet.{small_net}
use nport.Server.Msghandlers.Closing.{closed, close_forwarding_lem}
use nport.Server.Msghandlers.Validation.{open_port_privileged, own_host_refused}
use nport.Server.Session.Reachable.{empty_world, empty-Inv}

abbrev site : Hostnames
site = record {
  domain = codes "nport.io";
  api = codes "api";
  tcp = codes "tcp";
  api_hostname = codes "api.nport.io";
  tcp_hostname = codes "tcp.nport.io";
  subdomain_blocklist = [];
}

-- The link works, and every port but 0 can be bound; for 0 the system picks 40000.
abbrev env : Env
env = record {
  link = true;
  is_open = λ c. true;
  generated = codes "able-frog-1234";
  bind = λ p. if p == 0 then some 40000 else some p;
}

abbrev one : World
one = (register empty_world).0

one-Inv : Inv one
one-Inv = register-Inv empty_world empty-Inv

abbrev ask : HttpOpen
ask = record { hostname = some (codes "Foo"); local_address = none }

abbrev stop : HttpClose
stop = record { hostname = codes "foo.nport.io" }

close_forwarding_lem_example :
    let w' = (close_forwarding env one 0 stop).0 in
    (view w' ≡ (release 0 stop.hostname (view one)).0)
    × (env.link ≡ true
        → (w'.client 0).sent
          ≡ closed stop.hostname (is_owner 0 (view one stop.hostname)) ∷ (one.client 0).sent)
unfolding register
close_forwarding_lem_example = close_forwarding_lem env one 0 one-Inv (omega arith) stop

abbrev address : Address
address = record { host = none; port = 80 }

abbrev sneaky : PortOpen
sneaky = record {
  protocol = 0;
  remote_address = some (record { host = none; port = 65616 });
  local_address = none;
}

open_port_privileged_example : (open_port ascii_lowercase site env one 0 sneaky).1 ≡ ok 80
open_port_privileged_example =
    open_port_privileged ascii_lowercase site env one 0 0 80 sneaky (omega arith) (omega arith) refl
      refl

-- The server's own name for ports.
abbrev own : PortOpen
own = record {
  protocol = 0;
  remote_address = some (record { host = some site.tcp_hostname; port = 4000 });
  local_address = none;
}

own_host_refused_example :
    let w' = (Port.open_forwarding ascii_lowercase small_net site env one 0 own).0 in
    (answer : PortOpened) × ((w'.client 0).sent ≡ port_opened answer ∷ (one.client 0).sent)
    × (answer.error ≡ some (port_open_error_raw host_not_allowed))
    × ((w'.client 0).open_ports ≡ (one.client 0).open_ports)
    × (w'.stats ≡ one.stats)
own_host_refused_example =
    own_host_refused ascii_lowercase site (codes "tcp") small_net env one 0 4000 own refl
      (omega arith) (omega arith) (ground arith) refl (inr (omega arith)) refl

abbrev response : HttpResponse
response = record { uuid = codes "u1"; payload = none }

abbrev waiting : World
waiting = register_http_request env one 0 (codes "u1") 7

waiting-pending : pending waiting 0 (codes "u1") ≡ some 7
unfolding register_http_request StringMap.get StringMap.insert text_eq
waiting-pending = refl

send_http_response_once_example :
    let w' = (send_http_response env waiting 0 response).0 in
    ((send_http_response env waiting 0 response).1 ≡ ok tt)
    × (w'.http_responses ≡ (7, response) ∷ waiting.http_responses)
    × ((send_http_response env w' 0 response).1 ≡ err no_request)
    × ((send_http_response env w' 0 response).0.http_responses ≡ w'.http_responses)
    × ((uuid : List ℕ) → uuid ≢ response.uuid → pending w' 0 uuid ≡ pending waiting 0 uuid)
send_http_response_once_example =
    send_http_response_once env waiting 0 7 response response waiting-pending refl
