-- ===== src/Server/Forward/RoundTrip.antt =====
-- websockets.rs with np/src/dispatch/http.rs: an HTTP request from the server to np and back.
use nport.Prelude.{if◌then◌else◌, ◌≡◌, Bool, some, List, Result, ok, err}
use nport.Text.{Text}
use nport.StringMap
use nport.Addr.{to_address, from_socket_addr}
use nport.Addr.Sockets.{Net}
use nport.Messages.Client.{HttpResponseData, HttpResponseError}
use nport.Messages.Client as ClientMessage
use nport.Messages.Server.{HttpRequest, http, https}
use nport.Server.Env.{Env}
use nport.Server.Forward.{Incoming, ForwardRequestError, error_response}
use nport.Np.Env as NpEnv
use nport.Np.Client as Np

-- What the server asks of the client is what it was asked: the same method, path and body, for the
-- name in the `Host` header, with the last value of each header, the address of its own peer, and
-- the other scheme.
pub record IsAsked (net : Net) (via_tls : Bool) (hostname uuid : Text) (named : List (Text × Text))
    (incoming : Incoming) (req : HttpRequest) : Type 0 where
  pub uuid_same : req.uuid ≡ uuid
  pub hostname_same : req.hostname ≡ hostname
  -- The source has the two the wrong way round.
  pub scheme_swapped : req.scheme ≡ (if via_tls then http else https)
  pub method_same : req.method ≡ incoming.method
  pub uri_same : req.uri ≡ incoming.uri
  pub body_same : req.body ≡ some incoming.body
  pub headers_same :
      (name : Text) → StringMap.get name req.headers ≡ StringMap.last_value name named
  pub peer :
      req.http_client_address ≡ some (to_address (from_socket_addr net incoming.client_address))

-- What the server makes of np's own outcome.
abbrev pub outcome :
    Result HttpResponseError HttpResponseData → Result ForwardRequestError HttpResponseData
outcome (ok answer) = ok answer
outcome (err e) = err (error_response (some e))
