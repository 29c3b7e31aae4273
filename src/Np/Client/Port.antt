-- ===== src/Np/Client/Port.antt =====
-- np/src/client/port.rs: the task that `client_port` spawns, which carries the bytes of one
-- connection.
use nport.Prelude.{Bool, false, Option, none, some, List, [], ◌∷◌, Result, ok, err, if◌then◌else◌}
use nport.Text.{Text, is_empty}
use nport.Messages.Client.{Message, port_receive, port_close}
use nport.Server.State.{PortMessage, bytes, close}
use nport.Np.Env.{Env}
use nport.Np.Error.{Error}
use nport.Np.Client.{Client, send, port_writer_remove}

-- Which branch of `select!` a turn takes, and how it ends: a message of the server, with whether it
-- could be written; the bytes read, none at the end of the stream; or no bytes in the time step.
pub data Event : Type 0 where
  message : (received : Option PortMessage) (written : Bool) → Event
  read : Text → Event
  read_failed elapsed : Event

pub record Relay : Type 0 where
  pub client : Client
  -- What was written to the local service, the newest first.
  pub written : List Text
  pub running : Bool

-- The answers of the outside during one turn; `alive` is whether the client is still there.
pub record Turn : Type 0 where
  pub env : Env
  pub alive : Bool
  pub event : Event

module _ (uuid : Text) where
  -- After the loop.
  abbrev pub finish : Bool → Relay → Relay
  finish alive s = record s {
    client = if alive then port_writer_remove s.client uuid else s.client;
    running = false;
  }

  abbrev pub message_of : Text → Message
  message_of chunk =
      if is_empty chunk
      then port_close (record { uuid = uuid })
      else port_receive (record { uuid = uuid; bytes = chunk })

  -- After the message was sent, or not.
  abbrev pub sent_or_not : Bool → Text → Relay → Client × Result Error (Unit {0}) → Relay
  sent_or_not alive chunk s (client, ok _) =
      if is_empty chunk
      then finish alive (record s { client = client })
      else record s { client = client }
  sent_or_not alive chunk s (client, err _) = finish alive (record s { client = client })

  abbrev pub handle : Env → Bool → Event → Relay → Relay
  handle env alive (message none written) s = s
  handle env alive (message (some (bytes chunk)) written) s =
      if written then record s { written = chunk ∷ s.written } else finish alive s
  handle env alive (message (some close) written) s = finish alive s
  handle env alive (read chunk) s =
      if alive
      then sent_or_not alive chunk s (send env s.client (message_of chunk))
      else finish alive s
  handle env alive read_failed s = s
  handle env alive elapsed s = if alive then s else finish alive s

  -- The loop, over what happens to it; what happens after its end finds nothing running.
  unfoldable pub run : List Turn → Relay → Relay
  run [] s = s
  run (turn ∷ turns) s =
      if s.running then run turns (handle turn.env turn.alive turn.event s) else s
