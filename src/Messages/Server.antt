-- ===== src/Messages/Server.antt =====
-- libnp/src/server.proto: what the server sends to np.
use nport.Prelude.{ℕ, zero, suc, Option, none, some, List}
use nport.Text.{Text}
use nport.Messages.{Address}

pub data HttpOpenError : Type 0 where
  in_use invalid disallowed : HttpOpenError

-- `HttpOpenError as i32` and `HttpOpenError::try_from`
abbrev pub http_open_error_raw : HttpOpenError → ℕ
http_open_error_raw in_use = 0
http_open_error_raw invalid = 1
http_open_error_raw disallowed = 2

abbrev pub http_open_error_of_raw : ℕ → Option HttpOpenError
http_open_error_of_raw zero = some in_use
http_open_error_of_raw (suc zero) = some invalid
http_open_error_of_raw (suc (suc zero)) = some disallowed
http_open_error_of_raw (suc (suc (suc n))) = none

pub record HttpOpened : Type 0 where
  pub hostname : Text
  pub local_address : Option Address
  pub error : Option ℕ

pub data HttpCloseError : Type 0 where
  not_registered : HttpCloseError

abbrev pub http_close_error_raw : HttpCloseError → ℕ
http_close_error_raw not_registered = 0

pub record HttpClosed : Type 0 where
  pub hostname : Text
  pub error : Option ℕ

pub data HttpScheme : Type 0 where
  http https : HttpScheme

pub record HttpRequest : Type 0 where
  pub uuid : Text
  pub hostname : Text
  pub http_client_address : Option Address
  pub scheme : HttpScheme
  pub method : Text
  pub uri : Text
  pub headers : List (Text × Text)
  pub body : Option Text

pub data PortOpenError : Type 0 where
  in_use port_not_allowed host_not_allowed : PortOpenError

abbrev pub port_open_error_raw : PortOpenError → ℕ
port_open_error_raw PortOpenError.in_use = 0
port_open_error_raw port_not_allowed = 1
port_open_error_raw host_not_allowed = 2

abbrev pub port_open_error_of_raw : ℕ → Option PortOpenError
port_open_error_of_raw zero = some PortOpenError.in_use
port_open_error_of_raw (suc zero) = some port_not_allowed
port_open_error_of_raw (suc (suc zero)) = some host_not_allowed
port_open_error_of_raw (suc (suc (suc n))) = none

pub record PortOpened : Type 0 where
  pub protocol : ℕ
  pub remote_address : Option Address
  pub local_address : Option Address
  pub error : Option ℕ

pub record PortConnect : Type 0 where
  pub uuid : Text
  pub protocol : ℕ
  pub remote_address : Option Address
  pub from_address : Option Address

pub record PortReceive : Type 0 where
  pub uuid : Text
  pub bytes : Text

pub record PortClose : Type 0 where
  pub uuid : Text

pub record Print : Type 0 where
  pub message : Text
  pub level : ℕ

pub data Message : Type 0 where
  http_opened : HttpOpened → Message
  http_closed : HttpClosed → Message
  http_request : HttpRequest → Message
  port_opened : PortOpened → Message
  port_connect : PortConnect → Message
  port_receive : PortReceive → Message
  port_close : PortClose → Message
  print : Print → Message
