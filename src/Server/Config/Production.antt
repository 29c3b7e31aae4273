-- ===== src/Server/Config/Production.antt =====
-- nport-server/src/server/config.rs: when a server for production starts.
use nport.Prelude.{
  ◌≡◌, ◌↔◌, ◌∙◌, ap, refl, true, false, Option, some, Result, ok, err, arith, Result-cases, inl,
  inr,
}
use nport.Text.{Text, codes, is_empty}
use nport.Text.Lowercase.{Lowercase}
use nport.Server.Hostnames
use nport.Server.Stats.{Stats}
use nport.Server.Config.{Config, StoreConfig, store_of, production_check}
use nport.Server.Config.Laws.{start_production}
use nport.Server.Config.Setup.{Server, or_zero, server, server_parts}

-- What `Config::server` gives once it has the store and the address.
abbrev started_server : Lowercase → Config → Option Stats → Text → Option StoreConfig → Server
started_server lower config stats address store = record {
  listen = record { address = address; http = config.http_port; https = config.https_port };
  hostnames =
      Hostnames.new lower config.domain (some config.api_subdomain) (some config.tcp_subdomain)
        (some config.subdomain_blocklist);
  cert_store = store;
  stats = or_zero stats;
  options = record {
    client_request_timeout_secs = config.client_request_timeout_secs;
    send_welcome_message = config.send_welcome_message;
  };
}

-- A server for production whose configuration passes the check starts, with the store that the
-- configuration describes, exactly if the directory for the ACME account is set, which the check
-- does not ask for, the certificates can be loaded, and the address to bind is an IP address.
-- Without the directory it fails with an error about the HTTPS port.
pub production_start :
    (lower : Lowercase) (ip_addr : Text → Result Text Text)
    (load : StoreConfig → Result Text (Unit {0})) (c : Config) (stats : Option Stats)
    → c.production ≡ true
    → production_check c ≡ ok tt
    → (((s : Server) × (server lower ip_addr load c stats ≡ ok s)
          × (s.cert_store ≡ some (store_of c)))
        ↔ ((is_empty c.acme_persist_dir ≡ false)
            × (load (store_of c) ≡ ok tt)
            × ((address : Text) × (ip_addr c.bind_address ≡ ok address))))
      × (is_empty c.acme_persist_dir ≡ true
          → server lower ip_addr load c stats
            ≡ err (codes "HTTPS port without certificate configuration"))
unfolding server
production_start lower ip_addr load c stats p e =
    let (starts, fails) = start_production c load p e in
    (
      (
        λ (s, q, k).
            let (started, _, _) = server_parts lower ip_addr load c stats s q in
            let (d, l) = starts.0 (started ∙ ap ok k) in
            elim (Result-cases (ip_addr c.bind_address)) [
              | inl (m, i) ↦ absurd (ground (arith, q, started, i))
              | inr (address, i) ↦ (d, l, (address, i))
            ],
        λ (d, l, (address, i)). (
          started_server lower c stats address (some (store_of c)),
          ground (arith, starts.1 (d, l), i),
          refl,
        ),
      ),
      λ d. ground (arith, fails d),
    )
