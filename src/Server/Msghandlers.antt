-- ===== src/Server/Msghandlers.antt =====
-- nport-server/src/server/msghandlers: the handlers of the messages that np sends.
pub mod Http
pub mod Port
pub mod Laws
pub mod Opening
pub mod Closing
pub mod Validation
mod Tests
use nport.Prelude.{ℕ, Option, none, some, Result, ok, err, ◌>>=◌}
use nport.Text.Lowercase.{Lowercase}
use nport.Addr.Sockets.{Net}
use nport.Messages.Client.{
  Message, http_open, http_close, http_response, port_open, port_connected, port_receive,
  port_close,
}
use nport.Server.Hostnames.{Hostnames}
use nport.Server.State.{World}
use nport.Server.Env.{Env}
use nport.Server.Client.{Error, send_http_response, send_connected_response}
use nport.Server.Client
use Http
use Port

module _ (lower : Lowercase) (net : Net) (hostnames : Hostnames) (env : Env) where
  -- `msg` on a decoded message; `none` is a payload without a message. All handlers go on with
  -- `ControlFlow::Continue`.
  unfoldable pub msg : World → ℕ → Option Message → World × Result Error (Unit {0})
  msg w c none = (w, ok tt)
  msg w c (some (http_open request)) = Http.open_forwarding env lower hostnames w c request
  msg w c (some (http_close request)) = Http.close_forwarding env w c request
  msg w c (some (http_response response)) = send_http_response env w c response
  msg w c (some (port_open request)) = Port.open_forwarding lower net hostnames env w c request
  msg w c (some (port_connected connected)) = send_connected_response env w c connected
  msg w c (some (port_receive received)) = Client.port_receive env w c received
  msg w c (some (port_close closed)) = Client.port_close env w c closed
