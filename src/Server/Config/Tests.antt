-- ===== src/Server/Config/Tests.antt =====
-- A configuration for production without a directory for the ACME account.
use nport.Prelude.{◌≡◌, ◌↔◌, refl, true, false, none, some, Result, ok, err}
use nport.Text.{Text, codes, is_empty}
use nport.Server.Config.{Config, default_config, store_of, production_check}
use nport.Text.Lowercase.{ascii_lowercase}
use nport.Server.Config.Setup.{Server, server}
use nport.Server.Config.Production.{production_start}

abbrev forgetful : Config
forgetful = record default_config {
  production = true;
  http_port = 80;
  https_port = 443;
  domain = codes "nport.io";
  certs_dir = codes "/certs";
  acme_email = codes "a@nport.io";
  acme_persist_dir = codes "";
  acme_domain = codes "nport.io";
  acme_staging = false;
  cloudflare_zone_id = codes "z";
  cloudflare_api_token = codes "t";
}

abbrev answer : Result Text (Unit {0})
answer = ok tt

complete : production_check forgetful ≡ ok tt
unfolding production_check
complete = refl

abbrev no_address : Text → Result Text Text
no_address s = err (codes "invalid IP address syntax")

production_start_example :
    (((s : Server) × (server ascii_lowercase no_address (λ s. answer) forgetful none ≡ ok s)
        × (s.cert_store ≡ some (store_of forgetful)))
      ↔ ((is_empty forgetful.acme_persist_dir ≡ false)
          × (answer ≡ ok tt)
          × ((address : Text) × (no_address forgetful.bind_address ≡ ok address))))
    × (is_empty forgetful.acme_persist_dir ≡ true
        → server ascii_lowercase no_address (λ s. answer) forgetful none
          ≡ err (codes "HTTPS port without certificate configuration"))
production_start_example =
    production_start ascii_lowercase no_address (λ s. answer) forgetful none refl complete
