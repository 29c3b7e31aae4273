-- ===== src/Np/Tests.antt =====
-- Tests and instances for np.
use nport.Prelude.{
  ℕ, ◌≡◌, ◌≢◌, refl, true, false, none, some, List, [], ◌∷◌, ok, err, rev_append, All,
}
use nport.Text.{Text, codes, text_eq}
use nport.StringMap
use nport.Messages.Client
use nport.Messages.Server.{Message, http_request, http}
use nport.Server.State.{PortMessage}
use nport.Server.Env as ServerEnv
use nport.Server.Session.Reachable.{empty_world}
use nport.Server.PortServer.Relay as Relay
use nport.Np.Env.{Env}
use nport.Np.Client.{Client, new, server_url}
use nport.Np.Client.Port
use nport.Np.Client.Pipe.{port_pipe, reads, takes, deliver}
use nport.Np.Client.Lock.{Channel, Step, Steps, port_message_deadlock}
use nport.Np.Client.Lock
use nport.Np.Dispatch.Http.{Hyper}

-- An outside in which all goes well.
abbrev env : Env
env = record {
  connect_async = λ url. ok tt;
  link = ok tt;
  received = none;
  decode = λ payload. err (codes "no decoder");
  tcp_connect = λ addr. ok tt;
  channel = 5;
  is_open = λ c. true;
  has_room = λ c. true;
}

abbrev server_env : ServerEnv.Env
server_env = record {
  link = true;
  is_open = λ c. true;
  generated = codes "able-frog-1234";
  bind = λ p. some p;
}

-- The service cannot be reached.
abbrev hyper : Hyper
hyper = record {
  method_from_bytes = λ m. ok m;
  header_name = λ n. ok n;
  header_value = λ v. ok v;
  from_utf8_lossy = λ v. v;
  build = λ uri method body. ok (record { uri = uri; method = method; headers = []; body = body });
  fetch = λ request. err (codes "connection refused");
}

abbrev fresh : Client
fresh = new (record { pkg_version = codes "1"; git_ref = codes "abc"; git_is_dirty = false })

abbrev online : Client
online = record fresh { connection = some [] }

server_url_test :
    server_url (codes "linux") fresh.version_info (codes "api.nport.io") true
    ≡ codes "wss://api.nport.io/v1/connect?v=1&ref=abc&dirty=false&os=linux"
unfolding server_url
server_url_test = refl

abbrev visit : Message
visit = http_request (record {
  uuid = codes "u1";
  hostname = codes "foo.nport.io";
  http_client_address = none;
  scheme = http;
  method = codes "GET";
  uri = codes "/";
  headers = [];
  body = none;
})

abbrev piped : Client
piped = record online { port_writers = (codes "u1", 5) ∷ [] }

piped_writer : StringMap.get (codes "u1") piped.port_writers ≡ some 5
unfolding StringMap.get text_eq
piped_writer = refl

abbrev pieces : List Text
pieces = codes "GET / HTTP/1.1" ∷ codes "Host: foo" ∷ []

port_pipe_example :
    let s =
      Relay.run 0
        (codes "u1")
        (reads server_env pieces)
        (record { world = empty_world; written = []; running = true }) in
    (messages : List Message) × (items : List (ℕ × PortMessage)) × ((s.world.client 0).sent
      ≡ rev_append messages [])
    × (s.running ≡ false)
    × (StringMap.get (codes "u1") (s.world.client 0).port_writers ≡ none)
    × (deliver hyper env piped messages ≡ some items)
    × All (λ item. item.0 ≡ 5) items
    × (let t =
          Port.run
            (codes "u1")
            (takes env items)
            (record { client = piped; written = []; running = true }) in
        (t.written ≡ rev_append pieces [])
        × (t.running ≡ false)
        × (StringMap.get (codes "u1") t.client.port_writers ≡ none))
port_pipe_example =
    port_pipe hyper server_env env empty_world 0 5 piped (codes "u1") pieces refl (refl, (refl, tt))
      piped_writer refl refl

-- The channel of np's tasks holds one message.
port_message_deadlock_example :
    (c : Channel) × Steps (Lock.fresh 1) c
    × (c.sending ≢ none)
    × (c.running ≡ false)
    × (c.ended ≡ false)
    × ((d : Channel) → Step c d → ⊥)
port_message_deadlock_example = port_message_deadlock 1
