-- ===== src/Np/Tunnel/OutlivedTests.antt =====
-- A service of np's that still speaks, after np has reconnected.
use nport.Prelude.{◌+◌, ◌≡◌, refl, true, false, none, some, [], ◌∷◌, ok, err}
use nport.Text.{Text, codes, text_eq, split, strip_suffix}
use nport.StringSet
use nport.Addr.{Addr}
use nport.Server.Hostname.{is_valid}
use nport.Server.Hostnames.{is_subdomain_used, is_subdomain_blocked}
use nport.Server.Forwarding.{subdomain_for_forwarding, normalized_client_subdomain}
use nport.Text.Lowercase.{ascii_lowercase}
use nport.Addr.SmallNet.{small_net}
use nport.Messages.Client.{Message}
use nport.Server.State.{count}
use nport.Server.Env as ServerEnv
use nport.Server.Registry.{register, get_by_http_hostname, first_with, has_http_hostname}
use nport.Server.Registry.Ownership.{view}
use nport.Server.Msghandlers.{msg}
use nport.Server.Session.{Config, Server, connect, send_welcome, joined, after}
use nport.Server.Session.Reachable.{start, start-ServerInv}
use nport.Np.Env.{Env}
use nport.Np.Client.{Client, new, http_open}
use nport.Np.Client.Port.{read, run}
use nport.Np.Tunnel.Outlived.{outlived_task_disconnects}

abbrev env : Env
env = record {
  connect_async = λ url. ok tt;
  link = ok tt;
  received = none;
  decode = λ payload. err (codes "no decoder");
  tcp_connect = λ addr. ok tt;
  channel = 5;
  is_open = λ c. true;
  has_room = λ c. true;
}

abbrev server_env : ServerEnv.Env
server_env = record {
  link = true;
  is_open = λ c. true;
  generated = codes "able-frog-1234";
  bind = λ p. some p;
}

abbrev config : Config
config = record {
  hostnames = record {
    domain = codes "nport.io";
    api = codes "api";
    tcp = codes "tcp";
    api_hostname = codes "api.nport.io";
    tcp_hostname = codes "tcp.nport.io";
    subdomain_blocklist = [];
  };
  send_welcome_message = false;
  welcome = codes "";
}

abbrev np : Client
np =
    record (new (record { pkg_version = codes "1"; git_ref = codes "abc"; git_is_dirty = false })) {
      connection = some [];
      port_writers = (codes "u1", 5) ∷ [];
    }

abbrev rejoined : Server
rejoined = joined start (connect config server_env start.world)

is_accepted : (connect config server_env start.world).1 ≡ some 0
unfolding connect send_welcome register
is_accepted = refl

abbrev local : Addr
local = record { host = none; port = 8080 }

abbrev foo : Text
foo = codes "foo.nport.io"

granted :
    subdomain_for_forwarding ascii_lowercase config.hostnames (some (codes "foo"))
    ≡ ok (some (codes "foo"))
unfolding subdomain_for_forwarding normalized_client_subdomain is_valid split strip_suffix text_eq
    is_subdomain_used is_subdomain_blocked
granted = refl

free : view rejoined.world foo ≡ none
unfolding get_by_http_hostname first_with connect send_welcome register has_http_hostname
    StringSet.contains
free = refl

outlived_task_disconnects_example :
    let s =
      run
        (codes "u1")
        (record { env = env; alive = true; event = read (codes "late") } ∷ [])
        (record {
          client = (http_open env np (codes "foo") local).0;
          written = [];
          running = true;
        }) in
    (asked m : Message) × (s.client.connection ≡ some (m ∷ asked ∷ []))
    × (s.running ≡ true)
    × (let opened = after rejoined 0 (
          msg ascii_lowercase small_net config.hostnames server_env rejoined.world 0
            (some asked)) in
        let t =
          after opened 0
            (msg ascii_lowercase small_net config.hostnames server_env opened.world 0 (some m)) in
        (view opened.world foo ≡ some 0)
        × (count 0 t.active + 1 ≡ count 0 opened.active)
        × (view t.world foo ≡ none))
outlived_task_disconnects_example =
    outlived_task_disconnects ascii_lowercase small_net config server_env start 0 env np []
      (codes "u1") (codes "late") [] (codes "foo") local (some (codes "foo")) start-ServerInv
      is_accepted refl refl refl refl granted free
