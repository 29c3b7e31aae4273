-- ===== src/Server/Forward/HostPortTests.antt =====
-- A request for foo.nport.io:8080, where a client owns foo.nport.io.
use nport.Prelude.{◌≡◌, refl, true, false, some, [], ◌++◌, arith}
use nport.Text.{Text, codes}
use nport.Text.Laws.{text_eq_iff}
use nport.StringSet
use nport.Addr.SmallNet.{small_net}
use nport.Server.Hostnames.{Hostnames}
use nport.Server.State.{World}
use nport.Server.Env.{Env}
use nport.Server.Registry.{register, claim_http_hostname, add_http_hostname}
use nport.Server.Registry.Invariant.{Inv, IsRegistered}
use nport.Server.Registry.Preservation.{register-Inv, claim-Inv}
use nport.Server.Session.Reachable.{empty_world, empty-Inv}
use nport.Server.Routing.{choose}
use nport.Server.Forward.{Headers, no_client, elapsed, Incoming, error_page}
use nport.Server.Forward.Handler.{forward}
use nport.Server.Forward.HostPort.{HasPlainNames, forward_host_port}

abbrev env : Env
env = record { link = true; is_open = λ c. true; generated = codes "a"; bind = λ p. some p }

abbrev foo : Text
foo = codes "foo.nport.io"

abbrev registered : World
registered = (register empty_world).0

abbrev claimed : World
claimed = (claim_http_hostname registered 0 foo).0

is_registered : IsRegistered registered 0
unfolding register
is_registered = omega arith

claimed-Inv : Inv claimed
claimed-Inv = claim-Inv registered 0 foo (register-Inv empty_world empty-Inv) is_registered

plain : HasPlainNames claimed
unfolding claim_http_hostname add_http_hostname StringSet.insert StringSet.contains register
plain h e = let same : foo ≡ h = (text_eq_iff foo h).0 (ground (arith, e)) in rw⁻¹ same refl

abbrev site : Hostnames
site = record {
  domain = codes "nport.io";
  api = codes "api";
  tcp = codes "tcp";
  api_hostname = codes "api.nport.io";
  tcp_hostname = codes "tcp.nport.io";
  subdomain_blocklist = [];
}

abbrev headers : Headers
headers = record {
  to_str = λ v. some v;
  name_from_bytes = λ n. some n;
  value_from_bytes = λ v. some v;
}

abbrev incoming : Incoming
incoming = record {
  client_address = (codes "127.0.0.1", 5000);
  method = codes "GET";
  uri = codes "/";
  headers = [];
  body = [];
}

forward_host_port_example :
    (choose site (foo ++ codes ":8080") (codes "/") ≡ choose site foo (codes "/"))
    × (forward small_net headers false env claimed
          (some (foo ++ codes ":8080"))
          (codes "u")
          3
          incoming
          elapsed
        ≡ some (claimed, error_page 404 (foo ++ codes ":8080") no_client))
forward_host_port_example =
    forward_host_port claimed claimed-Inv plain small_net headers false env site
      (foo ++ codes ":8080") foo (codes "8080") (codes "/") (codes "u") 3 incoming elapsed refl refl
      refl
