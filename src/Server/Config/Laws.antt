-- ===== src/Server/Config/Laws.antt =====
-- Which configurations the server starts with.
use nport.Prelude.{◌<◌, ◌≡◌, ◌↔◌, true, false, some, Result, ok, err, arith}
use nport.Text.{Text, codes, is_empty}
use nport.Server.Config.{
  Config, StoreConfig, has_acme, has_cloudflare, enable_cert_store, cert_store, production_check,
  checked_store, store_of,
}

-- What production needs.
pub record IsComplete (c : Config) : Type 0 where
  pub ports : (0 < c.http_port) × (0 < c.https_port)
  pub domain : is_empty c.domain ≡ false
  pub certs_dir : is_empty c.certs_dir ≡ false
  pub acme : (is_empty c.acme_email ≡ false) × (is_empty c.acme_domain ≡ false)
  pub staging : c.acme_staging ≡ false
  pub cloudflare : has_cloudflare c ≡ true

-- The check for production passes exactly if both ports are set, the domain, the certificates'
-- directory, the ACME e-mail and domain and the Cloudflare credentials are there, and the ACME
-- server is not the one for staging.
pub production_check_iff : (c : Config) → (production_check c ≡ ok tt) ↔ IsComplete c
unfolding production_check has_cloudflare
production_check_iff c = (
  λ e. record {
    ports = (ground (arith, e), ground (arith, e));
    domain = ground (arith, e);
    certs_dir = ground (arith, e);
    acme = (ground (arith, e), ground (arith, e));
    staging = ground (arith, e);
    cloudflare = ground (arith, e);
  },
  λ r. ground (arith, r.ports, r.domain, r.certs_dir, r.acme, r.staging, r.cloudflare),
)

-- The start up to the store of certificates, in production, where the check passes.
pub start_production :
    (c : Config) (load : StoreConfig → Result Text (Unit {0}))
    → c.production ≡ true
    → production_check c ≡ ok tt
    → ((checked_store c load ≡ ok (some (store_of c)))
        ↔ ((is_empty c.acme_persist_dir ≡ false) × (load (store_of c) ≡ ok tt)))
      × (is_empty c.acme_persist_dir ≡ true
          → checked_store c load ≡ err (codes "HTTPS port without certificate configuration"))
unfolding checked_store cert_store enable_cert_store has_acme
start_production c load p e =
    let r = (production_check_iff c).0 e in
    (
      (
        λ s. (ground (arith, s, p, e), ground (arith, s, p, e)),
        λ (d, l). ground (arith, p, e, r.acme, r.certs_dir, d, l),
      ),
      λ d. ground (arith, p, e, d, r.ports),
    )
