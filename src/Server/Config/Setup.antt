-- ===== src/Server/Config/Setup.antt =====
-- nport-server/src/server/config.rs: from the settings to the server.
use nport.Prelude.{
  ◌≡◌, Bool, true, false, Option, none, some, List, [], ◌∷◌, Result, ok, ◌>>=◌, if◌then◌else◌, map,
  ◌++◌, ◌<◌, Result-cases, inl, inr, arith, ◌⊎◌, Bool-cases,
}
use nport.Text.{Text, is_empty, split}
use nport.Text.Lowercase.{Lowercase}
use nport.Server.Hostnames.{Hostnames}
use nport.Server.Hostnames
use nport.Server.Stats.{Stats, zero_metric}
use nport.Server.App.{Listen, Options}
use nport.Server.Config.{
  Config, StoreConfig, checked_store, cert_store, store_of, enable_cert_store,
}

-- `str::trim`
pub record Trim : Type 0 where
  pub trim : Text → Text
  -- The text has a first and a last character, and neither is white space.
  pub is_trimmed : Text → Bool
  pub trim_lem : (s : Text) → is_trimmed s ≡ true → (trim s ≡ s) × (is_empty s ≡ false)
  -- Only the ends matter.
  pub ends_lem :
      (s m t : Text) → is_trimmed s ≡ true → is_trimmed t ≡ true → is_trimmed (s ++ (m ++ t)) ≡ true

-- `filter(|s| !s.is_empty())`
abbrev pub drop_empty : List Text → List Text
drop_empty [] = []
drop_empty (s ∷ parts) = if is_empty s then drop_empty parts else s ∷ drop_empty parts

-- `StringList::from_str`
unfoldable pub string_list : Trim → Text → List Text
string_list t s = drop_empty (map t.trim (split b',' (t.trim s)))

abbrev pub zero_stats : Stats
zero_stats = record {
  http_requests_total = 0;
  client_connections = zero_metric;
  http_hostnames = zero_metric;
  tcp_ports = zero_metric;
}

abbrev pub or_zero : Option Stats → Stats
or_zero none = zero_stats
or_zero (some stats) = stats

-- implementation.rs: what `Server::new` puts together, the senders for its end aside.
pub record Server : Type 0 where
  pub listen : Listen
  pub hostnames : Hostnames
  pub cert_store : Option StoreConfig
  pub stats : Stats
  pub options : Options

module _ (lower : Lowercase) (ip_addr : Text → Result Text Text)
    (load : StoreConfig → Result Text (Unit {0})) where
  abbrev pub hostnames_of : Config → Hostnames
  hostnames_of config =
      Hostnames.new lower config.domain (some config.api_subdomain) (some config.tcp_subdomain)
        (some config.subdomain_blocklist)

  -- `Config::server`; `ip_addr` is the parser of an `IpAddr`.
  unfoldable pub server : Config → Option Stats → Result Text Server
  server config stats = checked_store config load >>= λ cert_store.
      (ip_addr config.bind_address >>= λ address. ok (record {
        listen = record { address = address; http = config.http_port; https = config.https_port };
        hostnames = hostnames_of config;
        cert_store = cert_store;
        stats = or_zero stats;
        options = record {
          client_request_timeout_secs = config.client_request_timeout_secs;
          send_welcome_message = config.send_welcome_message;
        };
      }))

  start_store :
      (config : Config) (store : Option StoreConfig)
      → checked_store config load ≡ ok store
      → (store ≡ some (store_of config)) ⊎ (config.https_port ≡ 0)
  unfolding checked_store cert_store
  start_store config store e = elim (Bool-cases (enable_cert_store config)) [
    | inl a ↦ elim (Result-cases (load (store_of config))) [
      | inl (m, l) ↦ absurd (ground (arith, e, a, l))
      | inr (u, l) ↦ inl (ground (arith, e, a, l))
    ]
    | inr a ↦ inr (ground (arith, e, a))
  ]

  pub server_parts :
      (config : Config) (stats : Option Stats) (s : Server)
      → server config stats ≡ ok s
      → (checked_store config load ≡ ok s.cert_store)
        × (s.listen.https ≡ config.https_port)
        × (s.hostnames ≡ hostnames_of config)
  unfolding server
  server_parts config stats s e = elim (Result-cases (checked_store config load)) [
    | inl (m, a) ↦ absurd (ground (arith, e, a))
    | inr (store, a) ↦ elim (Result-cases (ip_addr config.bind_address)) [
      | inl (m, i) ↦ absurd (ground (arith, e, a, i))
      | inr (address, i) ↦
          (ground (arith, e, a, i), ground (arith, e, a, i), ground (arith, e, a, i))
    ]
  ]

  -- A server that starts and has a port for TLS has the store of certificates that its settings
  -- describe, so that listening for TLS does not panic for want of one.
  pub server_store :
      (config : Config) (stats : Option Stats) (s : Server)
      → server config stats ≡ ok s
      → 0 < s.listen.https
      → s.cert_store ≡ some (store_of config)
  server_store config stats s e h =
      let (started, port, names) = server_parts config stats s e in
      elim (start_store config s.cert_store started) [
        | inl a ↦ a
        | inr a ↦ absurd (omega (arith, a, port, h))
      ]
