-- ===== src/Np/Dispatch/Http.antt =====
-- np/src/dispatch/http.rs: answering an HTTP request that the server forwards.
use nport.Prelude.{ℕ, Option, none, some, List, [], ◌∷◌, ◌++◌, Result, ok, err, ◌>>=◌, map_err}
use nport.Text.{Text, codes}
use nport.Text.Decimal.{print_u16}
use nport.StringMap
use nport.Addr.{Addr, host_or_default}
use nport.Messages.Client.{
  HttpResponseError, HttpResponseData, HttpPayload, forwarding_not_registered, invalid_method,
  invalid_header_name, invalid_header_value, creating_request, fetching_response, reading_response,
  success, error, http_response,
}
use nport.Messages.Server.{HttpRequest}
use nport.Np.Env.{Env}
use nport.Np.Error.{Error}
use nport.Np.Client.{Client, send, http_port}

-- A request of hyper: a header map has each name once.
pub record Request : Type 0 where
  pub uri : Text
  pub method : Text
  pub headers : List (Text × Text)
  pub body : Text

pub record Response : Type 0 where
  pub status : ℕ
  -- A name that the response has twice stands here twice.
  pub headers : List (Text × Text)
  -- What reading the body to its end gives.
  pub body : Result Text Text

-- The hyper library, as it answers during one request. An error is its text.
pub record Hyper : Type 0 where
  pub method_from_bytes : Text → Result Text Text
  pub header_name : Text → Result Text Text
  pub header_value : Text → Result Text Text
  pub from_utf8_lossy : Text → Text
  -- `Request::builder`, with the URI, the method and the body.
  pub build : Text → Text → Text → Result Text Request
  pub fetch : Request → Result Text Response

abbrev pub uri_of : Addr → Text → Text
uri_of addr uri =
    codes "http://" ++ (host_or_default addr.host ++ (codes ":" ++ (print_u16 addr.port ++ uri)))

abbrev pub body_or_empty : Option Text → Text
body_or_empty none = []
body_or_empty (some body) = body

abbrev pub payload_of : Result HttpResponseError HttpResponseData → HttpPayload
payload_of (ok response) = success response
payload_of (err e) = error (some e)

module _ (hyper : Hyper) where
  -- `try_for_each` over the headers, which inserts each into the request.
  unfoldable pub add_headers :
      List (Text × Text) → List (Text × Text) → Result HttpResponseError (List (Text × Text))
  add_headers m [] = ok m
  add_headers m ((key, value) ∷ headers) = elim (hyper.header_name key) [
    | err e ↦ err (invalid_header_name key e)
    | ok name ↦ elim (hyper.header_value value) [
      | err e ↦ err (invalid_header_value key (hyper.from_utf8_lossy value) e)
      | ok v ↦ add_headers (StringMap.insert name v m) headers
    ]
  ]

  unfoldable pub read_response : Response → Result HttpResponseError HttpResponseData
  read_response response = map_err reading_response response.body >>= λ body. ok (record {
    headers = StringMap.collect [] response.headers;
    status_code = response.status;
    body = body;
  })

  -- The request to the address of the forwarding.
  unfoldable pub request_to : Addr → HttpRequest → Result HttpResponseError Request
  request_to addr req =
      map_err (invalid_method req.method) (hyper.method_from_bytes req.method) >>= λ method.
      map_err creating_request (hyper.build (uri_of addr req.uri) method (body_or_empty req.body))
      >>= λ request. add_headers request.headers req.headers >>= λ headers.
          ok (record request { headers = headers })

  unfoldable pub send_request : Client → HttpRequest → Result HttpResponseError HttpResponseData
  send_request client req = elim (http_port client req.hostname) [
    | none ↦ err (forwarding_not_registered req.hostname)
    | some addr ↦ request_to addr req >>= λ request.
        map_err fetching_response (hyper.fetch request) >>= λ response. read_response response
  ]

  unfoldable pub request : Env → Client → HttpRequest → Client × Result Error (Unit {0})
  request env client req = send env client (
      http_response
        (record { uuid = req.uuid; payload = some (payload_of (send_request client req)) }))
