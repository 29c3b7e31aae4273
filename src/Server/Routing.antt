-- ===== src/Server/Routing.antt =====
-- nport-server/src/server/implementation.rs: which router answers a request, and the redirection to
-- TLS.
pub mod Laws
mod Tests
use nport.Prelude.{
  ℕ, Bool, true, false, not, ◌&&◌, Option, none, some, List, [], ◌∷◌, ◌++◌, ◌==◌, if◌then◌else◌,
}
use nport.Text.{Text, codes, text_eq, contains}
use nport.Text.Decimal.{print_u16}
use nport.Server.Hostnames.{Hostnames}

abbrev pub default_https_port : ℕ
default_https_port = 443

abbrev pub api_connect_path : Text
api_connect_path = codes "/v1/connect"

-- `rsplit_once(':')`, the part before the last colon; `none` where there is no colon.
unfoldable pub rsplit_once : ℕ → Text → Option Text
rsplit_once c [] = none
rsplit_once c (b ∷ s) = elim (rsplit_once c s) [
  | some before ↦ some (b ∷ before)
  | none ↦ if b == c then some [] else none
]

abbrev pub before_port : Option Text → Text → Text
before_port none hostname = hostname
before_port (some host) hostname = host

unfoldable pub host_of : Text → Text
host_of hostname = before_port (rsplit_once b':' hostname) hostname

pub data Router : Type 0 where
  api main forwarding : Router

-- `chooser`, on the `Host` and the path of a request.
unfoldable pub choose : Hostnames → Text → Text → Router
choose hostnames hostname path =
    let host = host_of hostname in
    if text_eq host hostnames.api_hostname && text_eq path api_connect_path
    then api
    else if text_eq host hostnames.domain
    then main
    else forwarding

-- Whether the server listens for TLS, and whether this request came over it.
pub record Tls : Type 0 where
  pub https_port : ℕ
  pub via_tls : Bool

abbrev pub has_tls : Tls → Bool
has_tls tls = not (tls.https_port == 0)

abbrev pub authority_of : Hostnames → ℕ → Text
authority_of hostnames https_port =
    if https_port == default_https_port
    then hostnames.domain
    else hostnames.domain ++ (codes ":" ++ print_u16 https_port)

-- `to_tls_middleware`: the authority that the request is redirected to with its path, or none where
-- the request goes on. `is_uri` is whether the library makes a URI of the authority and the path.
unfoldable pub to_tls : (Text → Text → Bool) → Hostnames → Tls → Text → Option Text
to_tls is_uri hostnames tls path =
    if has_tls tls && not tls.via_tls
    then (if is_uri (authority_of hostnames tls.https_port) path
        then some (authority_of hostnames tls.https_port)
        else none)
    else none
