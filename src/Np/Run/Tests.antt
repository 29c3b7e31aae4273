-- ===== src/Np/Run/Tests.antt =====
-- np without a server, and with a server whose websocket takes nothing.
use nport.Prelude.{
  ◌+◌, ◌≡◌, refl, true, false, none, some, List, [], ◌∷◌, ok, err, arith, length, rev_append, map,
}
use nport.Text.{Text, codes, text_eq}
use nport.Np.Env.{Env}
use nport.Np.Error.{disconnected, http_hostname_already_registered}
use nport.Np.Client.{
  Client, new, disconnect, recv, read_frame, http_port, http_register, server_url,
}
use nport.Np.Run.{State, Tunnel, http, round, unreachable}
use nport.Np.Run.Laws.{IsDown, gives_up}
use nport.Np.Run.Setup.{setup_failure_forgotten}
use nport.Np.Run.Read.{read, reading}
use nport.Np.Run.Reconnect.{request_of, online, reconnect_keeps}
use nport.Np.Run.Command.{Arguments, Settings, tcp_command, runs, new_settings}
use nport.Np.Run.Command
use nport.Np.Run.Start.{asked_for, start_asks}
use nport.Np.Dispatch.Http.{Hyper}
use nport.Messages.{tcp, protocol_raw}
use nport.Messages.Client.{Message, port_open}
use nport.Messages.Server.{HttpOpened}
use nport.Addr.{Addr, from_host_and_port}
use nport.Addr.SmallNet.{small_net}

abbrev down : Env
down = record {
  connect_async = λ url. err (codes "connection refused");
  link = err (codes "broken pipe");
  received = none;
  decode = λ payload. err (codes "no decoder");
  tcp_connect = λ addr. ok tt;
  channel = 5;
  is_open = λ c. true;
  has_room = λ c. true;
}

abbrev broken : Env
broken = record down { connect_async = λ url. ok tt }

abbrev fresh : Client
fresh = new (record { pkg_version = codes "1"; git_ref = codes "abc"; git_is_dirty = false })

abbrev start : State
start = record { client = fresh; retries = 0; slept = [] }

abbrev tunnels : List Tunnel
tunnels = http (some (codes "foo")) (record { host = none; port = 8080 }) ∷ []

is_down : IsDown down
is_down url = (codes "connection refused", refl)

gives_up_example :
    (t : State) × (unreachable down (codes "linux") (codes "api.nport.io") true tunnels 5 start
      ≡ some t)
    × (t.slept ≡ 32 ∷ 16 ∷ 8 ∷ 4 ∷ 2 ∷ [])
    × (t.client ≡ disconnect fresh)
    × (unreachable down (codes "linux") (codes "api.nport.io") true tunnels 6 start ≡ none)
gives_up_example = gives_up down (codes "linux") (codes "api.nport.io") true tunnels is_down fresh

setup_failure_forgotten_example :
    (t : State) × (round broken (codes "linux") (codes "api.nport.io") true tunnels start
      ≡ some (t, true))
    × (t.retries ≡ 0)
    × (length t.slept ≡ length start.slept + length tunnels)
    × (recv broken t.client ≡ err disconnected)
setup_failure_forgotten_example =
    setup_failure_forgotten broken (codes "broken pipe") refl (codes "linux") (codes "api.nport.io")
      true tunnels start refl refl (omega arith) (omega arith)

abbrev up : Env
up = record broken { link = ok tt }

abbrev hyper : Hyper
hyper = record {
  method_from_bytes = λ m. ok m;
  header_name = λ n. ok n;
  header_value = λ v. ok v;
  from_utf8_lossy = λ v. v;
  build = λ uri method body. ok (record { uri = uri; method = method; headers = []; body = body });
  fetch = λ request. err (codes "connection refused");
}

abbrev connected : State
connected = record start {
  client = record fresh {
    connection = some [];
    http_forwardings = (codes "foo.nport.io", record { host = none; port = 8080 }) ∷ [];
  };
}

closed : recv up connected.client ≡ err disconnected
unfolding recv read_frame
closed = refl

reconnect_keeps_example :
    (t : State) × (read hyper (up ∷ []) (reading connected.client)
      ≡ some (record (reading connected.client) { failed = true }))
    × (round up (codes "linux") (codes "api.nport.io") true tunnels connected ≡ some (t, true))
    × (t.client.connection ≡ some (rev_append (map request_of tunnels) []))
    × (t.client.port_forwardings ≡ connected.client.port_forwardings)
    × (t.client.port_writers ≡ connected.client.port_writers)
    × ((opened : HttpOpened) (addr : Addr)
        → opened.error ≡ none
        → http_port connected.client opened.hostname ≡ some addr
        → (http_register t.client opened
            ≡ (t.client, err (http_hostname_already_registered opened.hostname)))
          × (http_port t.client opened.hostname ≡ some addr))
reconnect_keeps_example =
    reconnect_keeps hyper up up disconnected (codes "linux") (codes "api.nport.io") true tunnels
      connected closed refl refl

abbrev args : Arguments
args = record {
  hostname = some (codes "tcp.nport.io");
  remote_port = some 9999;
  no_config_file = none;
  command = some (tcp_command 22);
}

abbrev settings : Settings
settings = record {
  server = record { hostname = codes "api.nport.io"; secure = true };
  tunnels = some tunnels;
}

abbrev asked : Message
asked = port_open (record {
  protocol = protocol_raw tcp;
  remote_address = some (record { host = some (codes "tcp.nport.io"); port = 9999 });
  local_address = some (record { host = none; port = 22 });
})

is_asked : asked_for small_net args (tcp_command 22) ≡ some asked
unfolding from_host_and_port text_eq
is_asked = refl

start_asks_example :
    (all : List Tunnel) × (Command.start small_net (λ sources. ok settings) args
      ≡ runs settings.server all)
    × ((env : Env) (os : Text) (t : State)
        → env.link ≡ ok tt
        → env.connect_async (server_url os t.client.version_info (codes "api.nport.io") true)
          ≡ ok tt
        → round env os (codes "api.nport.io") true all t
          ≡ some (
            record t {
              client = online t.client (asked ∷ rev_append (map request_of tunnels) []);
              retries = 0;
            },
            true,
          ))
unfolding new_settings
start_asks_example =
    start_asks small_net args (λ sources. ok settings) settings (tcp_command 22) asked refl refl
      is_asked
