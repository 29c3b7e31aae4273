-- ===== src/Server/Env.antt =====
-- What the handlers of the server ask of the world outside, as it answers during one message.
use nport.Prelude.{ℕ, Bool, Option}
use nport.Text.{Text}

pub record Env : Type 0 where
  -- The websocket of the client accepts a message.
  pub link : Bool
  -- The receiver of a port writer's channel is alive when `send` comes to an end: at once, or when
  -- there is room.
  pub is_open : ℕ → Bool
  -- The name that `names::Generator` makes.
  pub generated : Text
  -- `TcpListener::bind` on all interfaces: the port that is listened on, if it can be had.
  pub bind : ℕ → Option ℕ
