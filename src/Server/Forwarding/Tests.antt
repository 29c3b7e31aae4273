-- ===== src/Server/Forwarding/Tests.antt =====
-- Tests and instances for host names and the validation of subdomains.
use nport.Prelude.{◌≡◌, refl, ◌↔◌, true, none, some, [], ◌∷◌, ok, err}
use nport.Text.{codes, text_eq, split, strip_suffix}
use nport.Text.Lowercase.{ascii_lowercase}
use nport.Server.Hostname.{is_valid}
use nport.Server.Hostname.Grammar.{IsHostname, is_valid_iff}
use nport.Server.Hostnames.{
  Hostnames, new, is_subdomain_used, is_subdomain_blocked, unwrap_or_default,
}
use nport.Server.Hostnames
use nport.Server.Forwarding.{
  invalid, disallowed, subdomain_for_forwarding, normalized_client_subdomain,
}

abbrev site : Hostnames
unfolding Hostnames.new
site =
    Hostnames.new ascii_lowercase (codes "nport.io") (some (codes "API")) (some (codes "tcp"))
      (some (codes "Www" ∷ []))

forwarding_tests :
    (subdomain_for_forwarding ascii_lowercase site (some (codes "Foo.nport.io"))
      ≡ ok (some (codes "foo")))
    × (subdomain_for_forwarding ascii_lowercase site (some (codes "a.b")) ≡ err invalid)
    × (subdomain_for_forwarding ascii_lowercase site (some (codes "api")) ≡ err disallowed)
    × (subdomain_for_forwarding ascii_lowercase site (some (codes "WWW")) ≡ err disallowed)
    × (subdomain_for_forwarding ascii_lowercase site none ≡ ok none)
unfolding subdomain_for_forwarding normalized_client_subdomain is_valid split strip_suffix text_eq
    Hostnames.new is_subdomain_used is_subdomain_blocked
forwarding_tests = (refl, refl, refl, refl, refl)

is_valid_iff_example : (is_valid (codes "a-b.c") ≡ true) ↔ IsHostname (codes "a-b.c")
is_valid_iff_example = is_valid_iff (codes "a-b.c")

abbrev plain_site : Hostnames
plain_site = record {
  domain = codes "nport.io";
  api = [];
  tcp = [];
  api_hostname = codes "nport.io";
  tcp_hostname = codes "nport.io";
  subdomain_blocklist = [];
}
