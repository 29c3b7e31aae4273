-- ===== src/Messages.antt =====
-- libnp/src/common.proto, client.proto and server.proto: the messages as the generated code has
-- them. An enum field of a message is an `i32`; the model holds its value as a number.
pub mod Client
pub mod Server
use nport.Prelude.{ℕ, suc, zero, Option, none, some}
use nport.Text.{Text}

pub data PortProtocol : Type 0 where
  tcp : PortProtocol

pub record Address : Type 0 where
  pub host : Option Text
  -- `uint32`
  pub port : ℕ

-- `PortProtocol::try_from(i32)` and `as i32`
abbrev pub protocol_of_raw : ℕ → Option PortProtocol
protocol_of_raw zero = some tcp
protocol_of_raw (suc n) = none

abbrev pub protocol_raw : PortProtocol → ℕ
protocol_raw tcp = 0
