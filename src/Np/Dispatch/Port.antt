-- ===== src/Np/Dispatch/Port.antt =====
-- np/src/dispatch/port.rs: a connection to a port that the server forwards.
use nport.Prelude.{Option, none, some, Result, ok, err}
use nport.Text.{Text}
use nport.Messages.Client.{port_connected}
use nport.Messages.Server.{PortConnect}
use nport.Np.Env.{Env}
use nport.Np.Error.{Error, to_string}
use nport.Np.Client.{Client, send, port_connect, start}

abbrev pub error_of : Result Error (Unit {0}) → Option Text
error_of (ok _) = none
error_of (err e) = some (to_string e)

-- `none` is the panic of `port_connect`.
unfoldable pub connect : Env → Client → PortConnect → Option (Client × Result Error (Unit {0}))
connect env client msg = elim (port_connect client msg (start env client)) [
  | none ↦ none
  | some (client', result) ↦
      some (send env client' (port_connected (record { uuid = msg.uuid; error = error_of result })))
]
