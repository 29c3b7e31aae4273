-- ===== src/Messages/Client.antt =====
-- libnp/src/client.proto: what np sends to the server.
use nport.Prelude.{ℕ, Option, List}
use nport.Text.{Text}
use nport.Messages.{Address}

pub record HttpOpen : Type 0 where
  pub hostname : Option Text
  pub local_address : Option Address

pub record HttpClose : Type 0 where
  pub hostname : Text

pub data HttpResponseError : Type 0 where
  forwarding_not_registered : (hostname : Text) → HttpResponseError
  invalid_method : (method error : Text) → HttpResponseError
  invalid_header_name : (header_name error : Text) → HttpResponseError
  invalid_header_value : (header_name header_value error : Text) → HttpResponseError
  creating_request : (error : Text) → HttpResponseError
  fetching_response : (error : Text) → HttpResponseError
  reading_response : (error : Text) → HttpResponseError

pub record HttpResponseData : Type 0 where
  pub headers : List (Text × Text)
  pub status_code : ℕ
  pub body : Text

-- The oneof of `HttpResponse`; the inner error message has a oneof of its own.
pub data HttpPayload : Type 0 where
  error : Option HttpResponseError → HttpPayload
  success : HttpResponseData → HttpPayload

pub record HttpResponse : Type 0 where
  pub uuid : Text
  pub payload : Option HttpPayload

pub record PortOpen : Type 0 where
  pub protocol : ℕ
  pub remote_address : Option Address
  pub local_address : Option Address

pub record PortConnected : Type 0 where
  pub uuid : Text
  pub error : Option Text

pub record PortReceive : Type 0 where
  pub uuid : Text
  pub bytes : Text

pub record PortClose : Type 0 where
  pub uuid : Text

pub data Message : Type 0 where
  http_open : HttpOpen → Message
  http_close : HttpClose → Message
  http_response : HttpResponse → Message
  port_open : PortOpen → Message
  port_connected : PortConnected → Message
  port_receive : PortReceive → Message
  port_close : PortClose → Message
