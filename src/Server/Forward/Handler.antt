-- ===== src/Server/Forward/Handler.antt =====
-- nport-server/src/server/handlers/websockets.rs: the whole of `forward`, and the page about an error.
use nport.Prelude.{ℕ, Bool, Option, none, some, ◌++◌}
use nport.Text.{Text, codes}
use nport.Addr.Sockets.{Net}
use nport.Messages.Client.{
  HttpResponseError, forwarding_not_registered, invalid_method, invalid_header_name,
  invalid_header_value, creating_request, fetching_response, reading_response,
}
use nport.Server.State.{World}
use nport.Server.Env.{Env}
use nport.Server.Forward.{
  Headers, ForwardRequestError, no_client, empty_response_payload, timeout, recv, error_response,
  Waited, forward_request, Incoming, enqueue_request, Reply, host_of, reply_with,
}

-- `Display` of `HttpResponseErrorDisplayer`
unfoldable pub error_text : Option HttpResponseError → Text
error_text none = codes "unknown error"
error_text (some (forwarding_not_registered hostname)) =
    codes "forwarding not registered for " ++ hostname
error_text (some (invalid_method method error)) =
    codes "invalid HTTP method " ++ (method ++ (codes ": " ++ error))
error_text (some (invalid_header_name header_name error)) =
    codes "invalid header name for: " ++ header_name
error_text (some (invalid_header_value header_name header_value error)) =
    codes "invalid header value for " ++ (header_name ++ (codes ": " ++ header_value))
error_text (some (creating_request error)) = codes "error creating request: " ++ error
error_text (some (fetching_response error)) = codes "error fetching response: " ++ error
error_text (some (reading_response error)) = codes "error reading response: " ++ error

-- `Display` of `ForwardRequestError`; `broken` is the text of the channel's own error.
unfoldable pub to_string : Text → ForwardRequestError → Text
to_string broken no_client = codes "no client registered for this domain"
to_string broken empty_response_payload = codes "empty response from client"
to_string broken timeout = codes "timeout awaiting HTTP response"
to_string broken recv = codes "error receiving HTTP response: " ++ broken
to_string broken (error_response e) = codes "error from client: " ++ error_text e

module _ (net : Net) (headers : Headers) (via_tls : Bool) (env : Env) where
  -- `forward` on the `Host` header and the rest of the request; `waited` is how the wait on the
  -- channel ends, if there is one. `none` is a panic.
  unfoldable pub forward :
      World → Option Text → Text → ℕ → Incoming → Waited → Option (World × Reply)
  forward w host uuid channel incoming waited =
      let hostname = host_of headers host in
      elim (enqueue_request net via_tls env w hostname uuid channel incoming) [
        | none ↦ none
        | some (w', rx) ↦ elim (reply_with headers hostname (forward_request rx waited)) [
          | none ↦ none
          | some reply ↦ some (w', reply)
        ]
      ]
