-- ===== src/Server/Config/SetupTests.antt =====
-- A server from settings that block two subdomains.
use nport.Prelude.{
  ℕ, ◌≡◌, ◌≢◌, refl, true, false, Bool, not, ◌&&◌, none, some, List, [], ◌∷◌, ◌++◌, Result, ok,
  arith, ◌==◌, if◌then◌else◌,
}
use nport.Text.{Text, codes, text_eq, is_empty}
use nport.Text.Split.{join}
use nport.Text.Lowercase.{ascii_lowercase}
use nport.StringSet
use nport.Server.Hostnames.{is_subdomain_blocked}
use nport.Server.Hostnames
use nport.Server.Config.{
  Config, StoreConfig, default_config, checked_store, cert_store, enable_cert_store, has_acme,
}
use nport.Server.Config.Setup.{Trim, string_list, zero_stats, Server, server}
use nport.Server.Config.Blocklist.{blocklist_blocks}

-- Trimming of spaces.
abbrev trim_start : Text → Text
trim_start [] = []
trim_start (b ∷ s) = if b == 32 then trim_start s else b ∷ s

abbrev keep_end : ℕ → Text → Text
keep_end b [] = if b == 32 then [] else b ∷ []
keep_end b (c ∷ s) = b ∷ c ∷ s

abbrev trim_end : Text → Text
trim_end [] = []
trim_end (b ∷ s) = keep_end b (trim_end s)

abbrev starts_well : Text → Bool
starts_well [] = false
starts_well (b ∷ s) = not (b == 32)

abbrev ends_well : Text → Bool
ends_well [] = false
ends_well (b ∷ []) = not (b == 32)
ends_well (b ∷ c ∷ s) = ends_well (c ∷ s)

abbrev is_trimmed : Text → Bool
is_trimmed s = starts_well s && ends_well s

trim_end-same : (s : Text) → ends_well s ≡ true → trim_end s ≡ s
trim_end-same [] e = cc
trim_end-same (b ∷ []) e = ground (arith, e)
trim_end-same (b ∷ c ∷ s) e = rw (trim_end-same (c ∷ s) e) refl

trim-same : (s : Text) → is_trimmed s ≡ true → (trim_end (trim_start s) ≡ s) × (is_empty s ≡ false)
trim-same [] e = cc
trim-same (b ∷ s) e =
    let first : (b == 32) ≡ false = ground (arith, e) in
    (rw first (trim_end-same (b ∷ s) (ground (arith, e))), refl)

ends_well-append : (s t : Text) → ends_well t ≡ true → ends_well (s ++ t) ≡ true
ends_well-append [] t e = e
ends_well-append (b ∷ []) [] e = cc
ends_well-append (b ∷ []) (c ∷ t) e = e
ends_well-append (b ∷ c ∷ s) t e = ends_well-append (c ∷ s) t e

ends-same :
    (s m t : Text) → is_trimmed s ≡ true → is_trimmed t ≡ true → is_trimmed (s ++ (m ++ t)) ≡ true
ends-same [] m t e f = cc
ends-same (b ∷ s) m t e f =
    let last = ends_well-append (b ∷ s) (m ++ t) (ends_well-append m t (ground (arith, f))) in
    ground (arith, e, last)

abbrev trim_spaces : Trim
trim_spaces = record {
  trim = λ s. trim_end (trim_start s);
  is_trimmed = is_trimmed;
  trim_lem = trim-same;
  ends_lem = ends-same;
}

abbrev names : List Text
names = codes "www" ∷ codes "mail" ∷ []

abbrev config : Config
config = record default_config {
  http_port = 80;
  domain = codes "nport.io";
  subdomain_blocklist = string_list trim_spaces (join (codes ",") names);
}

abbrev address : Text → Result Text Text
address s = ok s

abbrev load : StoreConfig → Result Text (Unit {0})
load s = ok tt

abbrev plain_server : Server
plain_server = record {
  listen = record { address = codes "127.0.0.1"; http = 80; https = 0 };
  hostnames =
      Hostnames.new ascii_lowercase (codes "nport.io") (some []) (some [])
        (some (string_list trim_spaces (join (codes ",") names)));
  cert_store = none;
  stats = zero_stats;
  options = record { client_request_timeout_secs = 30; send_welcome_message = true };
}

plain_starts : server ascii_lowercase address load config none ≡ ok plain_server
unfolding server checked_store cert_store enable_cert_store has_acme
plain_starts = refl

no_entry_missing : names ≢ []
no_entry_missing = λ e. cc

is_listed : StringSet.contains (codes "mail") names ≡ true
unfolding StringSet.contains text_eq
is_listed = refl

blocklist_blocks_example :
    is_subdomain_blocked ascii_lowercase plain_server.hostnames (codes "mail") ≡ true
blocklist_blocks_example =
    blocklist_blocks trim_spaces ascii_lowercase address load config none plain_server names
      (codes "mail") no_entry_missing ((refl, refl), ((refl, refl), tt)) refl plain_starts is_listed
