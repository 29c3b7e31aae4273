-- ===== src/Np/Dispatch.antt =====
-- np/src/dispatch/mod.rs: handling a message of the server.
pub mod Http
pub mod Port
pub mod Laws
use nport.Prelude.{ℕ, Option, none, some, List, [], ◌∷◌, Result, ok, err}
use nport.Messages.Server.{
  Message, http_opened, http_closed, http_request, port_opened, port_connect, port_receive,
  port_close, print,
}
use nport.Server.State.{PortMessage}
use nport.Np.Env.{Env}
use nport.Np.Error.{Error}
use nport.Np.Client.{Client, http_register, http_deregister, port_register}
use nport.Np.Client
use Http.{Hyper, request}
use Port.{connect}

-- What handling a message leaves: the client, what went into the channel of a port writer, and the
-- result. The errors that the handler logs are not in it.
pub record Handled : Type 0 where
  pub client : Client
  pub written : Option (ℕ × PortMessage)
  pub result : Result Error (Unit {0})

abbrev pub logged : Client × Result Error (Unit {0}) → Handled
logged (client, result) = record { client = client; written = none; result = ok tt }

abbrev pub logged_panic : Option (Client × Result Error (Unit {0})) → Option Handled
logged_panic none = none
logged_panic (some p) = some (logged p)

abbrev pub returned : Client × Result Error (Unit {0}) → Handled
returned (client, result) = record { client = client; written = none; result = result }

abbrev pub wrote : Client → Result Error (ℕ × PortMessage) → Handled
wrote client (ok m) = record { client = client; written = some m; result = ok tt }
wrote client (err e) = record { client = client; written = none; result = ok tt }

abbrev pub wrote_or_waits : Client → Option (Result Error (ℕ × PortMessage)) → Option Handled
wrote_or_waits client none = none
wrote_or_waits client (some r) = some (wrote client r)

-- `none` is that the handler does not return: a panic, or that it waits without end for room in the
-- channel of a connection.
unfoldable pub message : Hyper → Env → Client → Message → Option Handled
message hyper env client (http_opened opened) = some (logged (http_register client opened))
message hyper env client (http_request req) = some (returned (request hyper env client req))
message hyper env client (http_closed closed) = some (logged (http_deregister client closed))
message hyper env client (port_opened opened) = logged_panic (port_register client opened)
message hyper env client (port_connect msg) = logged_panic (connect env client msg)
message hyper env client (port_receive receive) =
    wrote_or_waits client (Client.port_receive env client receive)
message hyper env client (port_close closed) =
    wrote_or_waits client (Client.port_close env client closed)
message hyper env client (print p) =
    some (record { client = client; written = none; result = ok tt })
