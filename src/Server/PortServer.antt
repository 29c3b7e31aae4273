-- ===== src/Server/PortServer.antt =====
-- nport-server/src/server/port_server.rs: the listener of a forwarded port, one connection to it at
-- a time until np has answered, and the state of the loop that accepts connections.
pub mod Relay
pub mod Laws
mod Tests
use nport.Prelude.{
  ℕ, ◌≡◌, Bool, true, false, Option, none, some, List, [], ◌∷◌, Result, ok, err, if◌then◌else◌,
}
use nport.Text.{Text}
use nport.Addr.Sockets.{Net}
use nport.Addr.{Addr, to_address, from_host_and_port, from_socket_addr}
use nport.Messages.{tcp, protocol_raw}
use nport.Messages.Client.{PortConnected}
use nport.Messages.Server.{port_connect}
use nport.Server.Stats.{dec}
use nport.Server.State.{World}
use nport.Server.Env.{Env}
use nport.Server.Client.{send, register_connect_request, port_writer_register}

pub data ControlFlow : Type 0 where
  continue_flow break_flow : ControlFlow

module _ (net : Net) (env : Env) (w : World) (c : ℕ) where
  -- `serve_socket` until it waits for np, which `none` stands for. `alive` is whether the weak
  -- reference to the client can be upgraded.
  unfoldable pub ask : Bool → Text → ℕ → Addr → Text × ℕ → World × Option ControlFlow
  ask alive uuid channel remote_addr from =
      let (w', result) = send env (register_connect_request env w c uuid channel) c (
        port_connect (record {
          uuid = uuid;
          protocol = protocol_raw tcp;
          remote_address = some (to_address remote_addr);
          from_address = some (to_address (from_socket_addr net from));
        })) in
      if alive
      then (w', elim result [ ok _ ↦ none | err _ ↦ some break_flow ])
      else (w, some break_flow)

  -- `serve_socket` once the wait is over; `none` is a sender that was dropped. The flag says
  -- whether the task of the connection is spawned; the loop goes on in any case.
  unfoldable pub answered : Text → ℕ → Option PortConnected → World × Bool
  answered uuid writer none = (w, false)
  answered uuid writer (some response) = elim response.error [
    | some error ↦ (w, false)
    | none ↦
        let (w', result) = port_writer_register env w c uuid writer in
        elim result [ ok _ ↦ (w', true) | err _ ↦ (w, false) ]
  ]

-- Where the loop of `server` is. It waits for np within a turn, and then accepts nothing else.
pub data Phase : Type 0 where
  accepting closed broken : Phase
  waiting : (uuid : Text) → Phase

pub record Listener : Type 0 where
  pub world : World
  pub phase : Phase
  -- The connections whose task was spawned.
  pub relays : List Text

abbrev pub phase_of : Text → Option ControlFlow → Phase
phase_of uuid none = waiting uuid
phase_of uuid (some continue_flow) = accepting
phase_of uuid (some break_flow) = broken

abbrev pub uncount_port : World → World
uncount_port w =
    let stats = w.stats in record w { stats = record stats { tcp_ports = dec stats.tcp_ports } }

abbrev pub asked : Listener → Text → World × Option ControlFlow → Listener
asked s uuid (w, flow) = record s { world = w; phase = phase_of uuid flow }

abbrev pub spawned : Listener → Text → World × Bool → Listener
spawned s uuid (w, relay) = record {
  world = w;
  phase = accepting;
  relays = if relay then uuid ∷ s.relays else s.relays;
}

module _ (net : Net) (c : ℕ) (hostname : Text) (port : ℕ) where
  abbrev pub remote : Addr
  remote = from_host_and_port net hostname port

  -- A turn of the loop: a connection is accepted, the wait for np ends, accepting fails, or the
  -- port is closed.
  pub data Turn (s : Listener) : Listener → Type 0 where
    accepts :
        (env : Env) (alive : Bool) (uuid : Text) (channel : ℕ) (from : Text × ℕ)
        → s.phase ≡ accepting
        → Turn s (asked s uuid (ask net env s.world c alive uuid channel remote from))
    goes_on :
        (env : Env) (uuid : Text) (writer : ℕ) (response : Option PortConnected)
        → s.phase ≡ waiting uuid
        → Turn s (spawned s uuid (answered net env s.world c uuid writer response))
    fails : s.phase ≡ accepting → Turn s s
    closes :
        s.phase ≡ accepting → Turn s (record s { world = uncount_port s.world; phase = closed })

  pub data Turns (s : Listener) : Listener → Type 0 where
    here : Turns s s
    then_turn : {t u : Listener} → Turns s t → Turn t u → Turns s u
