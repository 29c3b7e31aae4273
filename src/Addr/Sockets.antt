-- ===== src/Addr/Sockets.antt =====
-- `std::net`: the parsers of IP and socket addresses, which are not part of the repository.
use nport.Prelude.{ℕ, ◌<◌, ◌≡◌, Bool, true, false, Option, none, some, ◌++◌, if◌then◌else◌}
use nport.Text.{Text, codes, contains}
use nport.Text.Split.{Lacks}
use nport.Text.Decimal.{print_u16}

pub record Net : Type 0 where
  -- The text parses as an `IpAddr`.
  pub is_ip : Text → Bool
  -- The text is the `Display` form of an `IpAddr`.
  pub is_shown : Text → Bool
  -- The text parses as an `IpAddr` that is a loopback address.
  pub is_loopback : Text → Bool
  -- `SocketAddr::from_str`, with the `Display` form of the IP and the port.
  pub parse_socket_addr : Text → Option (Text × ℕ)
  -- The port is a `u16`.
  pub port_u16 : (s ip : Text) (port : ℕ) → parse_socket_addr s ≡ some (ip, port) → port < 65536
  -- A socket address in its `Display` form is read back.
  pub parse_shown :
      (ip : Text) (port : ℕ)
      → is_shown ip ≡ true
      → port < 65536
      → parse_socket_addr (
          (if contains b':' ip then codes "[" ++ (ip ++ codes "]") else ip)
          ++ (codes ":" ++ print_u16 port))
        ≡ some (ip, port)
  -- What stands before the only colon must be an IP address.
  pub parse_host :
      (host port : Text)
      → is_ip host ≡ false
      → Lacks b':' host
      → Lacks b':' port
      → parse_socket_addr (host ++ (codes ":" ++ port)) ≡ none
  pub default_shown : is_shown (codes "127.0.0.1") ≡ true
  pub default_loopback : is_loopback (codes "127.0.0.1") ≡ true
