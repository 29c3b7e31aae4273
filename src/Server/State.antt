-- ===== src/Server/State.antt =====
-- nport-server/src/server: the shared memory of the server. `Client` (client.rs) objects are shared
-- by reference, so they stand in a store and are named by their address; two references are the
-- same object (`Arc::ptr_eq`) when the addresses are equal.
use nport.Prelude.{◌+◌, ℕ, List, [], ◌∷◌, ◌==◌, if◌then◌else◌}
use nport.Text.{Text}
use nport.Messages.Client.{HttpResponse, PortConnected}
use nport.Messages.Server.{Message}
use nport.Server.Stats.{Stats}

-- A registered `oneshot::Sender` or `mpsc::Sender` is named by the channel that it belongs to.
pub record Client : Type 0 where
  pub hostnames : List Text
  pub http_requests : List (Text × ℕ)
  pub connect_requests : List (Text × ℕ)
  pub open_ports : List ℕ
  pub port_writers : List (Text × ℕ)
  -- What `ws_sender` has accepted, the newest first.
  pub sent : List Message

-- `Client::new`
abbrev pub new_client : Client
new_client = record {
  hostnames = [];
  http_requests = [];
  connect_requests = [];
  open_ports = [];
  port_writers = [];
  sent = [];
}

-- libnp/src/common.rs
pub data PortMessage : Type 0 where
  bytes : Text → PortMessage
  close : PortMessage

pub record Registry : Type 0 where
  pub claimed_http_hostnames : List Text
  pub clients : List ℕ

pub record World : Type 0 where
  pub registry : Registry
  pub client : ℕ → Client
  -- The addresses from here on are free.
  pub next : ℕ
  pub stats : Stats
  -- What was put into the channels, each named by a number, the newest first.
  pub http_responses : List (ℕ × HttpResponse)
  pub connected_responses : List (ℕ × PortConnected)
  pub port_messages : List (ℕ × PortMessage)

abbrev pub update_client : ℕ → Client → World → World
update_client c v w = record w { client = λ j. if j == c then v else w.client j }

-- How often an address stands in a list.
abbrev pub count : ℕ → List ℕ → ℕ
count c [] = 0
count c (x ∷ xs) = (if x == c then 1 else 0) + count c xs
