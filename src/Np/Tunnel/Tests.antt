-- ===== src/Np/Tunnel/Tests.antt =====
-- Instances: np opens foo.nport.io to its port 8080, and the server's port 4000 to its port 22.
use nport.Prelude.{ℕ, ◌≡◌, refl, true, false, none, some, [], ◌∷◌, Result, ok, err, arith}
use nport.Text.{Text, codes, text_eq, split, strip_suffix}
use nport.StringSet
use nport.Server.Hostname.{is_valid}
use nport.Text.Lowercase.{ascii_lowercase}
use nport.StringMap
use nport.Addr.{Addr, from_address, to_address}
use nport.Addr.SmallNet.{small_net}
use nport.Messages.Client
use nport.Messages.Server.{PortOpened, PortConnect, port_opened, port_connect}
use nport.Messages.Server
use nport.Server.Hostnames.{Hostnames, is_subdomain_used, is_subdomain_blocked}
use nport.Server.State.{World}
use nport.Server.Env as ServerEnv
use nport.Server.Registry.{register, get_by_http_hostname, first_with, has_http_hostname}
use nport.Server.Registry.Invariant.{Inv}
use nport.Server.Registry.Preservation.{register-Inv}
use nport.Server.Registry.Ownership.{view}
use nport.Server.Session.Reachable.{empty_world, empty-Inv}
use nport.Server.Forwarding.{subdomain_for_forwarding, normalized_client_subdomain}
use nport.Server.Msghandlers.Http.{open_forwarding}
use nport.Server.Msghandlers.Port as ServerPort
use nport.Server.PortServer.{ask, remote}
use nport.Np.Env.{Env}
use nport.Np.Error.{Error}
use nport.Np.Client.{Client, new, tcp_open, http_open, http_port, port_register}
use nport.Np.Client as Np
use nport.Np.Dispatch.{Handled, message}
use nport.Np.Dispatch.Http.{Hyper}
use nport.Np.Tunnel.{ask_http, http_open_end_to_end}
use nport.Np.Tunnel.Port.{ask_port, port_open_end_to_end}

abbrev env : Env
env = record {
  connect_async = λ url. ok tt;
  link = ok tt;
  received = none;
  decode = λ payload. err (codes "no decoder");
  tcp_connect = λ addr. ok tt;
  channel = 5;
  is_open = λ c. true;
  has_room = λ c. true;
}

abbrev server_env : ServerEnv.Env
server_env = record {
  link = true;
  is_open = λ c. true;
  generated = codes "able-frog-1234";
  bind = λ p. some p;
}

abbrev hyper : Hyper
hyper = record {
  method_from_bytes = λ m. ok m;
  header_name = λ n. ok n;
  header_value = λ v. ok v;
  from_utf8_lossy = λ v. v;
  build = λ uri method body. ok (record { uri = uri; method = method; headers = []; body = body });
  fetch = λ request. err (codes "connection refused");
}

abbrev online : Client
online = record {
  version_info = record { pkg_version = codes "1"; git_ref = codes "abc"; git_is_dirty = false };
  http_forwardings = [];
  port_forwardings = [];
  port_writers = [];
  connection = some [];
}

abbrev site : Hostnames
site = record {
  domain = codes "nport.io";
  api = codes "api";
  tcp = codes "tcp";
  api_hostname = codes "api.nport.io";
  tcp_hostname = codes "tcp.nport.io";
  subdomain_blocklist = [];
}

abbrev one : World
one = (register empty_world).0

one-Inv : Inv one
one-Inv = register-Inv empty_world empty-Inv

abbrev local : Addr
local = record { host = none; port = 8080 }

accepted :
    subdomain_for_forwarding ascii_lowercase site (some (codes "Foo")) ≡ ok (some (codes "foo"))
unfolding subdomain_for_forwarding normalized_client_subdomain is_valid split strip_suffix text_eq
    is_subdomain_used is_subdomain_blocked
accepted = refl

free : view one (codes "foo.nport.io") ≡ none
unfolding get_by_http_hostname first_with register has_http_hostname StringSet.contains
free = refl

unknown : http_port online (codes "foo.nport.io") ≡ none
unfolding http_port StringMap.get
unknown = refl

http_open_end_to_end_example :
    let w' =
      (open_forwarding server_env ascii_lowercase site one 0 (ask_http (codes "Foo") local)).0 in
    (answer : Server.Message) × (handled : Handled) × ((http_open env online
        (codes "Foo")
        local).0.connection
      ≡ some (Client.http_open (ask_http (codes "Foo") local) ∷ []))
    × ((w'.client 0).sent ≡ answer ∷ (one.client 0).sent)
    × (message hyper env (http_open env online (codes "Foo") local).0 answer ≡ some handled)
    × (view w' (codes "foo.nport.io") ≡ some 0)
    × (http_port handled.client (codes "foo.nport.io") ≡ some local)
unfolding register
http_open_end_to_end_example =
    http_open_end_to_end hyper env online [] server_env one 0 ascii_lowercase site (codes "Foo")
      local (some (codes "foo")) (omega arith) refl refl refl one-Inv (omega arith) accepted free
      unknown

abbrev ssh : Addr
ssh = record { host = none; port = 22 }

abbrev public : Addr
public = record { host = none; port = 4000 }

listens :
    (ServerPort.open_port ascii_lowercase site server_env one 0 (ask_port public ssh)).1 ≡ ok 4000
unfolding ServerPort.open_port ServerPort.server ServerPort.validate_address ServerPort.check_host
    from_address to_address
listens = refl

no_ports : (origin : Text) → StringMap.get origin online.port_forwardings ≡ none
unfolding StringMap.get
no_ports origin = refl

port_open_end_to_end_example :
    (answer : PortOpened) × (np' : Client) × ((tcp_open env online public ssh).0.connection
      ≡ some (Client.port_open (ask_port public ssh) ∷ []))
    × (((ServerPort.open_forwarding ascii_lowercase small_net site server_env one 0
            (ask_port public ssh)).0.client
          0).sent
        ≡ port_opened answer ∷ (one.client 0).sent)
    × (port_register (tcp_open env online public ssh).0 answer ≡ some (np', ok tt))
    × ((env : ServerEnv.Env) (w : World) (uuid : Text) (channel : ℕ) (from : Text × ℕ)
        → env.link ≡ true
        → (msg : PortConnect) × (((ask small_net env w 0 true uuid channel
                (remote small_net 0 site.tcp_hostname 4000)
                from).0.client
              0).sent
            ≡ port_connect msg ∷ (w.client 0).sent)
          × (msg.uuid ≡ uuid)
          × ((later : Client)
              → later.port_forwardings ≡ np'.port_forwardings
              → (f : Text → Addr → Client × Result Error (Unit {0}))
              → Np.port_connect later msg f ≡ some (f uuid ssh)))
port_open_end_to_end_example =
    port_open_end_to_end env online [] server_env ascii_lowercase small_net site one 0 4000 public
      ssh (omega arith) refl refl refl listens (no_ports _)
