-- ===== src/Np/Dispatch/Laws.antt =====
-- Which messages of the server np answers, and with what.
use nport.Prelude.{ℕ, true, ◌≡◌, Option, none, some, List, [], ◌∷◌, ◌++◌, ok, map}
use nport.Text.{Text}
use nport.StringMap
use nport.Messages.Client
use nport.Messages.Server.{
  Message, http_request, port_opened, port_connect, port_receive, port_close,
}
use nport.Addr.{Addr}
use nport.Np.Env.{Env}
use nport.Np.Error.{Error}
use nport.Np.Client.{Client}
use nport.Np.Client as Np
use nport.Np.Dispatch.{Handled}

-- What np owes the server for a message, by the uuid that the answer must have.
pub data Reply : Type 0 where
  response_to connected_to : Text → Reply
  unasked : Reply

abbrev pub replies_to : Message → List Reply
replies_to (http_request req) = response_to req.uuid ∷ []
replies_to (port_connect msg) = connected_to msg.uuid ∷ []
replies_to _ = []

-- A response without a payload would count as unasked.
abbrev pub reply_of : Client.Message → Reply
reply_of (Client.http_response response) = elim response.payload [
  | some payload ↦ response_to response.uuid
  | none ↦ unasked
]
reply_of (Client.port_connected connected) = connected_to connected.uuid
reply_of _ = unasked

-- The protocol of the message is one that np knows, which is TCP.
abbrev pub IsKnown : Message → Type 0
IsKnown (port_opened opened) = opened.protocol ≡ 0
IsKnown (port_connect msg) = msg.protocol ≡ 0
IsKnown _ = Unit {0}

-- The channel of the connection that a message is for takes it, if there is that connection.
abbrev pub HasRoom : Env → Client → Message → Type 0
HasRoom env client (port_receive receive) =
    (sender : ℕ)
    → StringMap.get receive.uuid client.port_writers ≡ some sender
    → env.has_room sender ≡ true
HasRoom env client (port_close closed) =
    (sender : ℕ)
    → StringMap.get closed.uuid client.port_writers ≡ some sender
    → env.has_room sender ≡ true
HasRoom env client _ = Unit {0}

-- The handler returns, and has sent what it owes.
abbrev Replied : Message → List Client.Message → Option Handled → Type 0
Replied m sent none = ⊥
Replied m sent (some h) =
    (new : List Client.Message) × (h.client.connection ≡ some (new ++ sent))
    × (map reply_of new ≡ replies_to m)
    × (h.result ≡ ok tt)
