-- ===== src/Np/Error.antt =====
-- np/src/error.rs: the errors of np and their texts. The libraries' errors are held as their texts.
use nport.Prelude.{ℕ, ◌++◌, none, some}
use nport.Text.{Text, codes}
use nport.Text.Decimal.{print}
use nport.Messages.Server.{
  invalid, disallowed, port_not_allowed, host_not_allowed, HttpOpenError, PortOpenError,
  http_open_error_of_raw, port_open_error_of_raw,
}
use nport.Addr.{Addr}
use nport.Addr

pub data Error : Type 0 where
  malformed_message invalid_message_type disconnected : Error
  decode tungstenite io : Text → Error
  http_open_error : Text → ℕ → Error
  http_hostname_already_registered http_hostname_not_registered : Text → Error
  port_open_error : Addr → ℕ → Error
  port_origin_already_registered port_origin_not_registered : Text → Error
  port_id_already_registered port_id_not_registered : Text → Error

abbrev pub http_open_error_text : HttpOpenError → Text
http_open_error_text HttpOpenError.in_use = codes "hostname is already in use"
http_open_error_text invalid = codes "hostname is not valid"
http_open_error_text disallowed = codes "hostname is not allowed"

abbrev pub port_open_error_text : PortOpenError → Text
port_open_error_text PortOpenError.in_use = codes "host/port is already in use"
port_open_error_text port_not_allowed = codes "port is not allowed"
port_open_error_text host_not_allowed = codes "host is not allowed"

-- `Display` of `HttpOpenErrorMessage`: ten digits show every code.
unfoldable pub http_open_error_message : ℕ → Text
http_open_error_message code = elim (http_open_error_of_raw code) [
  | some error ↦ http_open_error_text error
  | none ↦ codes "unknown HttpOpenError " ++ print 10 code
]

-- `Display` of `PortOpenErrorMessage`
unfoldable pub port_open_error_message : ℕ → Text
port_open_error_message code = elim (port_open_error_of_raw code) [
  | some error ↦ port_open_error_text error
  | none ↦ codes "unknown PortOpenError " ++ print 10 code
]

-- `Display` of `Error`
unfoldable pub to_string : Error → Text
to_string malformed_message = codes "received a malformed message"
to_string invalid_message_type = codes "received an invalid message type"
to_string disconnected = codes "client got disconnected"
to_string (decode e) = codes "decoding message: " ++ e
to_string (tungstenite e) = codes "websocket error " ++ e
to_string (io e) = codes "IO error: " ++ e
to_string (http_open_error hostname code) =
    codes "could not forward HTTP hostname "
    ++ (hostname ++ (codes ": " ++ http_open_error_message code))
to_string (http_hostname_already_registered hostname) =
    codes "HTTP hostname " ++ (hostname ++ codes " is already registered")
to_string (http_hostname_not_registered hostname) =
    codes "HTTP hostname " ++ (hostname ++ codes " not registered")
to_string (port_open_error addr code) =
    codes "Could not forward port "
    ++ (Addr.to_string addr ++ (codes ": " ++ port_open_error_message code))
to_string (port_origin_already_registered origin) =
    codes "Port origin " ++ (origin ++ codes " already registered")
to_string (port_origin_not_registered origin) =
    codes "Port origin " ++ (origin ++ codes " not registered")
to_string (port_id_already_registered uuid) =
    codes "Port ID " ++ (uuid ++ codes " already registered")
to_string (port_id_not_registered uuid) = codes "Port ID " ++ (uuid ++ codes " not registered")
