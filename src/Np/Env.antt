-- ===== src/Np/Env.antt =====
-- What np asks of the world outside, as it answers during one call.
use nport.Prelude.{ℕ, Bool, Option, Result}
use nport.Text.{Text}
use nport.Messages.Server.{Message}

-- A frame of the websocket that was received.
pub data Frame : Type 0 where
  binary : Text → Frame
  other : Frame

pub record Env : Type 0 where
  -- `connect_async`: the server at this URL is reached, or the text of the error.
  pub connect_async : Text → Result Text (Unit {0})
  -- The websocket takes a message, or the text of the error.
  pub link : Result Text (Unit {0})
  -- The next frame, an error, or the end of the stream.
  pub received : Option (Result Text Frame)
  -- `Payload::decode` of prost: the text of the error, or the message that the payload may hold.
  pub decode : Text → Result Text (Option Message)
  -- `TcpStream::connect`
  pub tcp_connect : Text → Result Text (Unit {0})
  -- The number of the channel that `mpsc::channel` makes.
  pub channel : ℕ
  -- The receiver of a port writer's channel is alive.
  pub is_open : ℕ → Bool
  -- That channel takes a message, at once or when its task has made room.
  pub has_room : ℕ → Bool
