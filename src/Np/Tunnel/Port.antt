-- ===== src/Np/Tunnel/Port.antt =====
-- np/src/client.rs with nport-server/src/server/msghandlers/port.rs and port_server.rs: opening a
-- port from np to the server and back, and a connection to it.
use nport.Prelude.{
  List, ℕ, ◌<◌, ◌≡◌, refl, ap, ◌∙◌, true, none, some, ◌∷◌, Result, ok, arith, ==_refl,
}
use nport.Text.{Text}
use nport.Text.Laws.{text_eq_refl}
use nport.Text.Lowercase.{Lowercase}
use nport.Addr.{Addr, from_address, to_address, from_host_and_port, from_socket_addr}
use nport.Addr.Origin.{port_origin, port_origin_from_raw}
use nport.Messages.{tcp, protocol_raw}
use nport.StringMap
use nport.StringMap.{get-insert}
use nport.Addr.RoundTrip.{from_address-to_address}
use nport.Addr.Sockets.{Net}
use nport.Messages.Client.{PortOpen}
use nport.Messages.Client
use nport.Np.Env.{Env}
use nport.Messages.Server.{PortOpened, PortConnect, port_opened, port_connect}
use nport.Server.Hostnames.{Hostnames}
use nport.Server.State.{World}
use nport.Server.Msghandlers.Port.{open_port}
use nport.Server.Msghandlers.Port
use nport.Server.Client.{register_port, register_connect_request}
use nport.Server.Client as ServerClient
use nport.Server.Msghandlers.Opening.{sent-send}
use nport.Server.Env as ServerEnv
use nport.Server.PortServer.{ask, remote}
use nport.Np.Error.{Error}
use nport.Np.Client.{
  Client, send, tcp_open, port_open, http_open, http_port, http_register, port_register,
  insert_vacant,
}
use nport.Np.Client as Np

-- What `tcp_open` puts on the wire.
abbrev pub ask_port : Addr → Addr → PortOpen
ask_port remote_addr local_addr = record {
  protocol = protocol_raw tcp;
  remote_address = some (to_address remote_addr);
  local_address = some (to_address local_addr);
}

-- The answer to a request for a port, once the server listens on `port`.
abbrev pub port_answer : Net → Hostnames → PortOpen → ℕ → PortOpened
port_answer net hostnames request port = record {
  protocol = request.protocol;
  remote_address = some (to_address (from_host_and_port net hostnames.tcp_hostname port));
  local_address = request.local_address;
  error = none;
}

module _ (env : ServerEnv.Env) (lower : Lowercase) (hostnames : Hostnames) (w : World) (c : ℕ) where
  sent-open_port :
      (request : PortOpen)
      → ((open_port lower hostnames env w c request).0.client c).sent ≡ (w.client c).sent
  unfolding open_port Port.server register_port
  sent-open_port request = ground arith

  port_opened_answer :
      (net : Net) (port : ℕ) (request : PortOpen)
      → env.link ≡ true
      → (open_port lower hostnames env w c request).1 ≡ ok port
      → ((Port.open_forwarding lower net hostnames env w c request).0.client c).sent
        ≡ port_opened (port_answer net hostnames request port) ∷ (w.client c).sent
  unfolding Port.open_forwarding
  port_opened_answer net port request l o = rw o (
      sent-send env _ c _ l
      ∙ ap (◌∷◌ (port_opened (port_answer net hostnames request port))) (sent-open_port request))

-- What the server sends to np for a connection to a port of this listener.
abbrev pub connect_message : Net → Hostnames → ℕ → Text → Text × ℕ → PortConnect
connect_message net hostnames port uuid from = record {
  uuid = uuid;
  protocol = 0;
  remote_address = some (to_address (from_host_and_port net hostnames.tcp_hostname port));
  from_address = some (to_address (from_socket_addr net from));
}

sent-ask :
    (net : Net) (hostnames : Hostnames) (env : ServerEnv.Env) (w : World) (c channel port : ℕ)
    (uuid : Text) (from : Text × ℕ)
    → env.link ≡ true
    → ((ask net env w c true uuid channel (remote net c hostnames.tcp_hostname port) from).0.client
        c).sent
      ≡ port_connect (connect_message net hostnames port uuid from) ∷ (w.client c).sent
unfolding ask ServerClient.send register_connect_request
sent-ask net hostnames env w c channel port uuid from l = ground (arith, ==_refl c)

connects_to :
    (net : Net) (hostnames : Hostnames) (np : Client) (before : List (Text × Addr)) (port : ℕ)
    (uuid : Text) (from : Text × ℕ) (local_addr : Addr)
    → let msg = connect_message net hostnames port uuid from in
      let origin = port_origin tcp (from_address msg.remote_address) in
      np.port_forwardings
        ≡ StringMap.insert origin (from_address (some (to_address local_addr))) before
      → local_addr.port < 65536
      → (f : Text → Addr → Client × Result Error (Unit {0}))
      → Np.port_connect np msg f ≡ some (f uuid local_addr)
unfolding Np.port_connect port_origin_from_raw
connects_to net hostnames np before port uuid from local_addr e p f =
    let msg = connect_message net hostnames port uuid from in
    let origin = port_origin tcp (from_address msg.remote_address) in
    ground (
      arith,
      e,
      get-insert origin origin (from_address (some (to_address local_addr))) before,
      text_eq_refl origin,
      from_address-to_address local_addr p,
    )

sent-tcp_open :
    (env : Env) (np : Client) (sent : List Client.Message) (remote_addr local_addr : Addr)
    → np.connection ≡ some sent
    → env.link ≡ ok tt
    → (tcp_open env np remote_addr local_addr).0.connection
      ≡ some (Client.port_open (ask_port remote_addr local_addr) ∷ sent)
unfolding tcp_open port_open send
sent-tcp_open env np sent remote_addr local_addr k s = ground (arith, k, s)

asked_ports :
    (env : Env) (np : Client) (remote_addr local_addr : Addr)
    → (tcp_open env np remote_addr local_addr).0.port_forwardings ≡ np.port_forwardings
unfolding tcp_open port_open send
asked_ports env np remote_addr local_addr = ground arith

-- np, which is connected, asks for a TCP port, the websocket takes its message and the server's, and
-- the server listens on a port. Then the server answers with a message after which np knows the
-- forwarding, if it had none of that name. When the server accepts a connection to the port, in
-- whatever state its registry is then, while the client is alive and its websocket takes messages,
-- it sends np a message; and np, if its forwardings are still those, connects for it to exactly the
-- local address that was asked for.
pub port_open_end_to_end :
    (np_env : Env) (np : Client) (sent : List Client.Message) (env : ServerEnv.Env)
    (lower : Lowercase) (net : Net) (hostnames : Hostnames) (w : World) (c port : ℕ)
    (remote_addr local_addr : Addr)
    → local_addr.port < 65536
    → np.connection ≡ some sent
    → np_env.link ≡ ok tt
    → env.link ≡ true
    → let request = ask_port remote_addr local_addr in
      let origin =
        port_origin tcp (from_address (port_answer net hostnames request port).remote_address) in
      (open_port lower hostnames env w c request).1 ≡ ok port
      → StringMap.get origin np.port_forwardings ≡ none
      → (answer : PortOpened) × (np' : Client) × ((tcp_open np_env np remote_addr
            local_addr).0.connection
          ≡ some (Client.port_open request ∷ sent))
        × (((Port.open_forwarding lower net hostnames env w c request).0.client c).sent
            ≡ port_opened answer ∷ (w.client c).sent)
        × (port_register (tcp_open np_env np remote_addr local_addr).0 answer ≡ some (np', ok tt))
        × ((env : ServerEnv.Env) (w : World) (uuid : Text) (channel : ℕ) (from : Text × ℕ)
            → env.link ≡ true
            → (msg : PortConnect) × (((ask net env w c true uuid channel
                    (remote net c hostnames.tcp_hostname port)
                    from).0.client
                  c).sent
                ≡ port_connect msg ∷ (w.client c).sent)
              × (msg.uuid ≡ uuid)
              × ((later : Client)
                  → later.port_forwardings ≡ np'.port_forwardings
                  → (f : Text → Addr → Client × Result Error (Unit {0}))
                  → Np.port_connect later msg f ≡ some (f uuid local_addr)))
unfolding port_register insert_vacant port_origin_from_raw
port_open_end_to_end np_env np sent env lower net hostnames w c port remote_addr local_addr p k s l
      o n =
    let request = ask_port remote_addr local_addr in
    let answer = port_answer net hostnames request port in
    let origin = port_origin tcp (from_address answer.remote_address) in
    let asked = (tcp_open np_env np remote_addr local_addr).0 in
    (
      answer,
      record asked {
        port_forwardings =
            StringMap.insert origin (from_address answer.local_address) asked.port_forwardings;
      },
      sent-tcp_open np_env np sent remote_addr local_addr k s,
      port_opened_answer env lower hostnames w c net port request l o,
      ground (arith, n, asked_ports np_env np remote_addr local_addr),
      λ env w uuid channel from l. (
        connect_message net hostnames port uuid from,
        sent-ask net hostnames env w c channel port uuid from l,
        refl,
        λ later same.
            connects_to net hostnames later asked.port_forwardings port uuid from local_addr same p,
      ),
    )
