-- ===== src/Addr/Split.antt =====
-- libnp/src/lib.rs: `split_origin`, which takes the name of a port forwarding apart. The parser of
-- URLs is a parameter.
use nport.Prelude.{
  ℕ, ◌<◌, ◌≡◌, refl, true, false, Bool, Option, some, ◌++◌, Result, ok, err, ok_or, ◌>>=◌, map_err,
  if◌then◌else◌,
}
use nport.Text.{Text, codes, text_eq, contains}
use nport.Text.Decimal.{print_u16}
use nport.Messages.{PortProtocol, tcp}
use nport.Addr.{Addr, default_addr_host, host_or_default, to_string}
use nport.Addr.Origin.{port_origin}

pub record Url : Type 0 where
  pub scheme : Text
  pub host_str : Option Text
  pub port : Option ℕ

-- `Url::parse`, or the text of its error.
pub record UrlParser : Type 0 where
  pub parse : Text → Result Text Url
  -- The text is a host as it stands in a URL, and in its normal form.
  pub is_host : Text → Bool
  -- A URL of a scheme without a default port, a host and a port.
  pub parse_host_port :
      (host : Text) (port : ℕ)
      → is_host host ≡ true
      → port < 65536
      → parse (codes "tcp" ++ (codes "://" ++ (host ++ (codes ":" ++ print_u16 port))))
        ≡ ok (record { scheme = codes "tcp"; host_str = some host; port = some port })
  pub default_is_host : is_host default_addr_host ≡ true

-- `PortProtocol::from_str`, with the text of the error.
unfoldable pub protocol_from_str : Text → Result Text PortProtocol
protocol_from_str s =
    if text_eq s (codes "tcp") then ok tcp else err (codes "invalid port protocol " ++ s)

-- The text of `Error::InvalidOrigin`.
unfoldable pub split_origin : UrlParser → Text → Result Text (PortProtocol × Text × ℕ)
split_origin urls origin = map_err (λ e. origin ++ (codes ": " ++ e)) (urls.parse origin) >>= λ url.
    (protocol_from_str url.scheme >>= λ protocol.
    (ok_or url.host_str (codes "origin " ++ (origin ++ codes " is missing a host")) >>= λ host.
    (ok_or url.port (codes "origin " ++ (origin ++ codes " is missing a port")) >>= λ port.
    ok (protocol, host, port))))

-- A host that stands in a URL as it is shown.
abbrev pub IsUrlHost : UrlParser → Option Text → Type 0
IsUrlHost urls host =
    (urls.is_host (host_or_default host) ≡ true) × (contains b':' (host_or_default host) ≡ false)

-- Taking the name of a port forwarding apart gives what it was made of.
pub split_origin-port_origin :
    (urls : UrlParser) (a : Addr)
    → a.port < 65536
    → IsUrlHost urls a.host
    → split_origin urls (port_origin tcp a) ≡ ok (tcp, host_or_default a.host, a.port)
unfolding split_origin port_origin to_string protocol_from_str text_eq
split_origin-port_origin urls a h (k, n) =
    let parsed = urls.parse_host_port (host_or_default a.host) a.port k h in rw (n, parsed) refl
