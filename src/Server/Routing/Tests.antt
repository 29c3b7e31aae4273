-- ===== src/Server/Routing/Tests.antt =====
-- The routes of a server for nport.io with an API at api.nport.io.
use nport.Prelude.{◌≡◌, ◌≢◌, refl, true, false, some, [], ap}
use mathlib.Core.Bool.{false≢true}
use nport.Text.{codes, text_eq}
use nport.Server.Hostnames.{Hostnames}
use nport.Server.Routing.{Tls, main, choose, to_tls, api_connect_path}
use nport.Server.Routing.Laws.{redirect_leaves_api}

abbrev site : Hostnames
site = record {
  domain = codes "nport.io";
  api = codes "api";
  tcp = codes "tcp";
  api_hostname = codes "api.nport.io";
  tcp_hostname = codes "tcp.nport.io";
  subdomain_blocklist = [];
}

abbrev plain : Tls
plain = record { https_port = 443; via_tls = false }

redirected : to_tls (λ a p. true) site plain api_connect_path ≡ some (codes "nport.io")
unfolding to_tls
redirected = refl

different : site.api_hostname ≢ site.domain
unfolding text_eq
different e = false≢true (ap (λ h. text_eq h (codes "nport.io")) e)

redirect_leaves_api_example : choose site (codes "nport.io") api_connect_path ≡ main
redirect_leaves_api_example =
    redirect_leaves_api site (λ a p. true) plain api_connect_path (codes "nport.io") refl different
      redirected
