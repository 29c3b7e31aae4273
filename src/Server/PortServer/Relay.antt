-- ===== src/Server/PortServer/Relay.antt =====
-- nport-server/src/server/port_server.rs: the task that `serve_socket` spawns, which carries the
-- bytes of one connection.
use nport.Prelude.{ℕ, Bool, false, Option, none, some, List, [], ◌∷◌, if◌then◌else◌}
use nport.Text.{Text, is_empty}
use nport.Messages.Server.{Message, port_receive, port_close}
use nport.Server.State.{World, PortMessage, bytes, close}
use nport.Server.Env.{Env}
use nport.Server.Client.{send, port_writer_remove}

-- Which branch of `select!` a turn takes, and how it ends: a message of np, with whether it could
-- be written; the bytes read, none at the end of the stream; or no bytes within the time step.
pub data Event : Type 0 where
  message : (received : Option PortMessage) (written : Bool) → Event
  read : Text → Event
  read_failed elapsed : Event

pub record Relay : Type 0 where
  pub world : World
  -- What was written to the socket, the newest first.
  pub written : List Text
  pub running : Bool

-- The answers of the outside during one turn; `alive` is whether the client is still there.
pub record Turn : Type 0 where
  pub env : Env
  pub alive : Bool
  pub event : Event

module _ (c : ℕ) (uuid : Text) where
  -- After the loop.
  abbrev pub finish : Env → Bool → Relay → Relay
  finish env alive s = record s {
    world = if alive then port_writer_remove env s.world c uuid else s.world;
    running = false;
  }

  abbrev pub message_of : Text → Message
  message_of chunk =
      if is_empty chunk
      then port_close (record { uuid = uuid })
      else port_receive (record { uuid = uuid; bytes = chunk })

  -- An error of the websocket is logged only.
  abbrev pub forward : Env → Text → Relay → Relay
  forward env chunk s = record s { world = (send env s.world c (message_of chunk)).0 }

  abbrev pub handle : Env → Bool → Event → Relay → Relay
  handle env alive (message none written) s = s
  handle env alive (message (some (bytes chunk)) written) s =
      if written then record s { written = chunk ∷ s.written } else finish env alive s
  handle env alive (message (some close) written) s = finish env alive s
  handle env alive (read chunk) s =
      if alive
      then (if is_empty chunk then finish env alive (forward env chunk s) else forward env chunk s)
      else finish env alive s
  handle env alive read_failed s = finish env alive s
  handle env alive elapsed s = if alive then s else finish env alive s

  -- The loop, over what happens to it; what happens after its end finds nothing running.
  unfoldable pub run : List Turn → Relay → Relay
  run [] s = s
  run (turn ∷ turns) s =
      if s.running then run turns (handle turn.env turn.alive turn.event s) else s
