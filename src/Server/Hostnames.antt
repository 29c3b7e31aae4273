-- ===== src/Server/Hostnames.antt =====
-- nport-server/src/server/config.rs: the host names of the server (`Hostnames`).
use nport.Prelude.{Bool, ◌||◌, Option, none, some, List, [], ◌++◌, map, if◌then◌else◌, any}
use nport.Text.{Text, codes, text_eq, is_empty}
use nport.Text.Lowercase.{Lowercase}

pub record Hostnames : Type 0 where
  pub domain : Text
  pub api : Text
  pub tcp : Text
  pub api_hostname : Text
  pub tcp_hostname : Text
  pub subdomain_blocklist : List Text

-- `Option::unwrap_or_default` at `&str` and at a slice.
abbrev pub unwrap_or_default {ℓ} : {A : Type ℓ} → Option (List A) → List A
unwrap_or_default none = []
unwrap_or_default (some s) = s

unfoldable pub new_hostname : Text → Text → Text
new_hostname domain host = if is_empty host then domain else host ++ (codes "." ++ domain)

module _ (lower : Lowercase) where
  unfoldable pub normalize_subdomain : Text → Text
  normalize_subdomain subdomain = lower.to_lowercase subdomain

  -- `Hostnames::new`
  unfoldable pub new : Text → Option Text → Option Text → Option (List Text) → Hostnames
  unfolding normalize_subdomain
  new domain api tcp blocklist =
      let api = normalize_subdomain (unwrap_or_default api) in
      let tcp = normalize_subdomain (unwrap_or_default tcp) in
      record {
        domain = domain;
        api = api;
        tcp = tcp;
        api_hostname = new_hostname domain api;
        tcp_hostname = new_hostname domain tcp;
        subdomain_blocklist = map normalize_subdomain (unwrap_or_default blocklist);
      }

  unfoldable pub is_subdomain_used : Hostnames → Text → Bool
  unfolding normalize_subdomain
  is_subdomain_used h subdomain =
      let subdomain = normalize_subdomain subdomain in
      text_eq subdomain h.api || text_eq subdomain h.tcp

  unfoldable pub is_subdomain_blocked : Hostnames → Text → Bool
  unfolding normalize_subdomain
  is_subdomain_blocked h subdomain =
      let subdomain = normalize_subdomain subdomain in
      any (λ item. text_eq item subdomain) h.subdomain_blocklist
