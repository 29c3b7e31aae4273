-- ===== src/Addr.antt =====
-- libnp/src/lib.rs: addresses with a host and a port, and the origins of port forwardings.
-- A port is a `u16`, a number below 65536.
pub mod Sockets
pub mod Origin
pub mod RoundTrip
pub mod Serde
pub mod Split
pub mod Bounds
pub mod SmallUrls
pub mod SmallNet
mod Tests
use mathlib.Core.Option
use nport.Prelude.{
  ℕ, ◌%◌, Bool, true, false, ◌||◌, Option, none, some, List, [], ◌∷◌, ◌++◌, if◌then◌else◌,
}
use nport.Text.{Text, codes, text_eq, is_empty, contains, split}
use nport.Text.Decimal.{print_u16, parse_u16}
use nport.Messages.{Address}
use Sockets.{Net}

abbrev pub default_addr_host : Text
default_addr_host = codes "127.0.0.1"

abbrev pub localhost : Text
localhost = codes "localhost"

pub record Addr : Type 0 where
  pub host : Option Text
  pub port : ℕ

abbrev pub from_port : ℕ → Addr
from_port port = record { host = none; port = port }

-- `address.port as u16` drops the upper bits.
unfoldable pub from_address : Option Address → Addr
from_address none = record { host = none; port = 0 }
from_address (some address) = record { host = address.host; port = address.port % 65536 }

unfoldable pub to_address : Addr → Address
to_address a = record { host = a.host; port = a.port }

unfoldable pub has_host : Addr → Bool
has_host a = elim a.host [ none ↦ false | some h ↦ true ]

unfoldable pub with_port : Addr → ℕ → Addr
with_port a port = record a { port = port }

abbrev pub host_or_default : Option Text → Text
host_or_default none = default_addr_host
host_or_default (some h) = h

-- An IPv6 host is put in brackets.
abbrev pub bracket : Text → Text
bracket host = if contains b':' host then codes "[" ++ (host ++ codes "]") else host

-- `Display`
unfoldable pub to_string : Addr → Text
to_string a = bracket (host_or_default a.host) ++ (codes ":" ++ print_u16 a.port)

-- `parts[0]`, `parts[1]` and the test `parts.len() != 2`
abbrev pub two_parts : List Text → Option (Text × Text)
two_parts (host ∷ port ∷ []) = some (host, port)
two_parts _ = none

module _ (net : Net) where
  unfoldable pub from_host_and_port : Text → ℕ → Addr
  from_host_and_port host port = record {
    host =
        if is_empty host || text_eq host localhost || net.is_loopback host then none else some host;
    port = port;
  }

  -- A socket address is the text of its IP and its port.
  unfoldable pub from_socket_addr : Text × ℕ → Addr
  from_socket_addr (ip, port) = from_host_and_port ip port

  unfoldable pub try_parse_socket_addr : Text → Option Addr
  try_parse_socket_addr s = Option.map from_socket_addr (net.parse_socket_addr s)

  unfoldable pub try_parse_hostname : Text → Option Addr
  try_parse_hostname s = elim (two_parts (split b':' s)) [
    | none ↦ none
    | some (host, port) ↦ Option.map (from_host_and_port host) (parse_u16 port)
  ]

  -- `FromStr`: the text of the error is left out.
  unfoldable pub from_str : Text → Option Addr
  from_str s = elim (try_parse_socket_addr s) [
    | some addr ↦ some addr
    | none ↦ try_parse_hostname s
  ]

  -- The socket address that the text of an address is, which a host name is not.
  unfoldable pub try_to_socket_addr : Addr → Option (Text × ℕ)
  try_to_socket_addr a = net.parse_socket_addr (to_string a)
