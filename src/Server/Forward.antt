-- ===== src/Server/Forward.antt =====
-- nport-server/src/server/handlers/websockets.rs: forwarding an HTTP request to a client and its
-- response back. The libraries of HTTP are the parameter `Headers`.
pub mod Laws
pub mod RoundTrip
pub mod Handler
pub mod HostPort
mod HostPortTests
mod Tests
use nport.Prelude.{
  ℕ, ◌%◌, Bool, true, false, Option, none, some, List, [], ◌∷◌, Result, ok, err, ◌&&◌, leb, ltb,
  if◌then◌else◌,
}
use nport.Text.{Text, codes, text_eq}
use nport.StringMap
use nport.Addr.Sockets.{Net}
use nport.Addr.{to_address, from_socket_addr}
use nport.Messages.Client.{
  HttpResponse, HttpResponseData, HttpResponseError, HttpPayload, success, error,
}
use nport.Messages.Server.{HttpRequest, HttpScheme, http, https, http_request}
use nport.Server.State.{World}
use nport.Server.Env.{Env}
use nport.Server.Client.{Error, client_not_found, send, register_http_request}
use nport.Server.Registry.{get_by_http_hostname}

-- The header types of the http library.
pub record Headers : Type 0 where
  -- `HeaderValue::to_str`
  pub to_str : Text → Option Text
  -- `HeaderName::from_bytes` and `HeaderValue::from_bytes`
  pub name_from_bytes : Text → Option Text
  pub value_from_bytes : Text → Option Text

pub data ForwardRequestError : Type 0 where
  no_client empty_response_payload timeout recv : ForwardRequestError
  error_response : Option HttpResponseError → ForwardRequestError

unfoldable pub status_code : ForwardRequestError → ℕ
status_code no_client = 404
status_code empty_response_payload = 500
status_code timeout = 504
status_code recv = 500
status_code (error_response e) = 502

-- What waiting for the response gives: it came, its sender was dropped, or the time ran out.
pub data Waited : Type 0 where
  elapsed dropped : Waited
  came : HttpResponse → Waited

unfoldable pub read_payload : Option HttpPayload → Result ForwardRequestError HttpResponseData
read_payload none = err empty_response_payload
read_payload (some (error e)) = err (error_response e)
read_payload (some (success response)) = ok response

unfoldable pub forward_request :
    {E : Type 0} → Result E ℕ → Waited → Result ForwardRequestError HttpResponseData
forward_request (err e) waited = err no_client
forward_request (ok rx) elapsed = err timeout
forward_request (ok rx) dropped = err recv
forward_request (ok rx) (came response) = read_payload response.payload

-- `HeaderMap::into_iter` names only the first of the values with one name. A map without a first
-- name does not occur; its `unwrap` would panic.
unfoldable pub with_names : Option Text → List (Option Text × Text) → Option (List (Text × Text))
with_names previous [] = some []
with_names previous ((some name, value) ∷ headers) = elim (with_names (some name) headers) [
  | none ↦ none
  | some m ↦ some ((name, value) ∷ m)
]
with_names none ((none, value) ∷ headers) = none
with_names (some name) ((none, value) ∷ headers) = elim (with_names (some name) headers) [
  | none ↦ none
  | some m ↦ some ((name, value) ∷ m)
]

-- What the HTTP server has read of a request; `headers` is what `into_iter` goes through.
pub record Incoming : Type 0 where
  pub client_address : Text × ℕ
  pub method : Text
  pub uri : Text
  pub headers : List (Option Text × Text)
  pub body : Text

-- The two are swapped in the source.
abbrev pub scheme_of : Bool → HttpScheme
scheme_of via_tls = if via_tls then http else https

abbrev pub request_of : Net → Bool → Text → Text → List (Text × Text) → Incoming → HttpRequest
request_of net via_tls uuid hostname named incoming = record {
  uuid = uuid;
  hostname = hostname;
  http_client_address = some (to_address (from_socket_addr net incoming.client_address));
  scheme = scheme_of via_tls;
  method = incoming.method;
  uri = incoming.uri;
  headers = StringMap.collect [] named;
  body = some incoming.body;
}

module _ (net : Net) (via_tls : Bool) (env : Env) (w : World) where
  -- The request is sent to the client that owns the name.
  unfoldable pub enqueue_to :
      ℕ → Text → Text → ℕ → List (Text × Text) → Incoming → World × Result Error ℕ
  enqueue_to handler hostname uuid channel named incoming =
      let (w', result) =
        send env (register_http_request env w handler uuid channel) handler
          (http_request (request_of net via_tls uuid hostname named incoming)) in
      (w', elim result [ ok _ ↦ ok channel | err e ↦ err e ])

  -- The result is the channel on which the response is awaited; `none` is a panic.
  unfoldable pub enqueue_request : Text → Text → ℕ → Incoming → Option (World × Result Error ℕ)
  enqueue_request hostname uuid channel incoming = elim (get_by_http_hostname w hostname) [
    | none ↦ some (w, err client_not_found)
    | some handler ↦ elim (with_names none incoming.headers) [
      | none ↦ none
      | some named ↦ some (enqueue_to handler hostname uuid channel named incoming)
    ]
  ]

abbrev pub should_skip_header : Text → Bool
should_skip_header header = text_eq header (codes "transfer-encoding")

-- What is to be sent back: the status, the headers and the body, or a page about the error, which
-- Site renders: where that fails, the status is 500.
pub data Reply : Type 0 where
  response : ℕ → List (Text × Text) → Text → Reply
  error_page : ℕ → Text → ForwardRequestError → Reply

-- `StatusCode::from_u16`
abbrev pub is_status : ℕ → Bool
is_status code = leb 100 code && ltb code 1000

module _ (headers : Headers) where
  -- The `Host` header.
  unfoldable pub host_of : Option Text → Text
  host_of none = []
  host_of (some host) = elim (headers.to_str host) [ none ↦ [] | some hostname ↦ hostname ]

  unfoldable pub filter_headers : List (Text × Text) → List (Text × Text)
  filter_headers [] = []
  filter_headers ((name, value) ∷ hs) =
      let rest = filter_headers hs in
      if should_skip_header name then rest else elim (headers.name_from_bytes name) [
        | none ↦ rest
        | some n ↦ elim (headers.value_from_bytes value) [ none ↦ rest | some v ↦ (n, v) ∷ rest ]
      ]

  -- The end of `forward`; `none` is the panic of `unwrap` on the status.
  unfoldable pub reply_with : Text → Result ForwardRequestError HttpResponseData → Option Reply
  reply_with hostname (ok answer) =
      let status = answer.status_code % 65536 in
      if is_status status
      then some (response status (filter_headers answer.headers) answer.body)
      else none
  reply_with hostname (err e) = some (error_page (status_code e) hostname e)
