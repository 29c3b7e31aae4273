-- ===== src/Server/Config.antt =====
-- nport-server/src/server/config.rs: the configuration, its check for production, and whether the
-- server has a store of certificates.
pub mod Laws
pub mod Setup
pub mod Production
pub mod Blocklist
mod Tests
mod SetupTests
use nport.Prelude.{
  ℕ, Bool, true, false, not, ◌&&◌, Option, none, some, List, [], Result, ok, err, ◌>>◌, ltb, ◌==◌,
  if◌then◌else◌,
}
use nport.Text.{Text, codes, is_empty}

-- The settings, as the environment has them. `StringList` is the list in it.
pub record Config : Type 0 where
  pub production : Bool
  pub bind_address : Text
  pub http_port : ℕ
  pub https_port : ℕ
  pub domain : Text
  pub api_subdomain : Text
  pub tcp_subdomain : Text
  pub subdomain_blocklist : List Text
  pub certs_dir : Text
  pub acme_email : Text
  pub acme_persist_dir : Text
  pub acme_domain : Text
  pub acme_staging : Bool
  pub cloudflare_zone_id : Text
  pub cloudflare_api_token : Text
  pub client_request_timeout_secs : ℕ
  pub send_welcome_message : Bool
  pub otel_service_name : Text
  pub otel_otlp_endpoint : Text
  pub otel_otlp_headers : Text

-- `Config::default`: what an empty environment gives.
abbrev pub default_config : Config
default_config = record {
  production = false;
  bind_address = codes "127.0.0.1";
  http_port = 0;
  https_port = 0;
  domain = codes "";
  api_subdomain = codes "";
  tcp_subdomain = codes "";
  subdomain_blocklist = [];
  certs_dir = codes "";
  acme_email = codes "";
  acme_persist_dir = codes "";
  acme_domain = codes "";
  acme_staging = true;
  cloudflare_zone_id = codes "";
  cloudflare_api_token = codes "";
  client_request_timeout_secs = 30;
  send_welcome_message = true;
  otel_service_name = codes "";
  otel_otlp_endpoint = codes "";
  otel_otlp_headers = codes "";
}

-- What `CloudflareUpdater`, `Generator` and `Store` are made of.
pub record StoreConfig : Type 0 where
  pub certs_dir : Text
  pub domain : Text
  pub email : Text
  pub persist_dir : Text
  pub staging : Bool
  pub api_token : Text
  pub zone_id : Text

-- `return Err` under a condition; the error is its text.
abbrev pub fail_if : Bool → Text → Result Text (Unit {0})
fail_if condition message = if condition then err message else ok tt

module _ (c : Config) where
  unfoldable pub has_acme : Bool
  has_acme =
      not (is_empty c.acme_email)
      && not (is_empty c.acme_persist_dir)
      && not (is_empty c.acme_domain)

  unfoldable pub has_cloudflare : Bool
  has_cloudflare = not (is_empty c.cloudflare_zone_id) && not (is_empty c.cloudflare_api_token)

  -- The last test of the source only logs.
  unfoldable pub enable_cert_store : Bool
  enable_cert_store = if not has_acme then false else if is_empty c.certs_dir then false else true

  abbrev pub store_of : StoreConfig
  store_of = record {
    certs_dir = c.certs_dir;
    domain = c.acme_domain;
    email = c.acme_email;
    persist_dir = c.acme_persist_dir;
    staging = c.acme_staging;
    api_token = c.cloudflare_api_token;
    zone_id = c.cloudflare_zone_id;
  }

  -- `load` reads the certificates that are on the disk, or fails with a text.
  unfoldable pub cert_store :
      (StoreConfig → Result Text (Unit {0})) → Result Text (Option StoreConfig)
  cert_store load =
      if enable_cert_store
      then elim (load store_of) [ ok _ ↦ ok (some store_of) | err e ↦ err e ]
      else if ltb 0 c.https_port
      then err (codes "HTTPS port without certificate configuration")
      else ok none

  unfoldable pub production_check : Result Text (Unit {0})
  production_check =
      fail_if (c.http_port == 0) (codes "missing http_port")
      >> fail_if (c.https_port == 0) (codes "missing https_port")
      >> fail_if (is_empty c.domain) (codes "missing domain")
      >> fail_if (is_empty c.certs_dir) (codes "missing certs_dir")
      >> fail_if (is_empty c.acme_email) (codes "missing acme_email")
      >> fail_if (is_empty c.acme_domain) (codes "missing acme_domain")
      >> fail_if c.acme_staging (codes "acme_staging is true")
      >> fail_if (is_empty c.cloudflare_zone_id) (codes "missing cloudflare_zone_id")
      >> fail_if (is_empty c.cloudflare_api_token) (codes "missing cloudflare_api_token")

  -- The first part of `server`, up to the store of certificates; Setup has the whole.
  unfoldable pub checked_store :
      (StoreConfig → Result Text (Unit {0})) → Result Text (Option StoreConfig)
  checked_store load = (if c.production then production_check else ok tt) >> cert_store load
