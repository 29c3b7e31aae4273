-- ===== src/Server/Forwarding.antt =====
-- nport-server/src/server/msghandlers/common.rs: which subdomain a client may claim.
pub mod Laws
mod Tests
use mathlib.Core.Option
use nport.Prelude.{Bool, not, ◌||◌, Option, none, some, ◌++◌, Result, ok, err, if◌then◌else◌}
use nport.Text.{Text, codes, is_empty, contains, strip_suffix}
use nport.Text.Lowercase.{Lowercase}
use nport.Server.Hostname.{is_valid}
use nport.Server.Hostnames.{Hostnames, is_subdomain_used, is_subdomain_blocked, unwrap_or_default}

pub data ValidationError : Type 0 where
  invalid disallowed : ValidationError

abbrev pub unwrap_or {ℓ} : {A : Type ℓ} → Option A → A → A
unwrap_or none d = d
unwrap_or (some a) d = a

module _ (lower : Lowercase) (hostnames : Hostnames) where
  unfoldable pub normalized_client_subdomain : Text → Text
  normalized_client_subdomain subdomain =
      let subdomain = lower.to_lowercase subdomain in
      let suffix = codes "." ++ hostnames.domain in
      unwrap_or (strip_suffix suffix subdomain) subdomain

  abbrev pub check_subdomain : Text → Result ValidationError (Option Text)
  check_subdomain requested =
      if not (is_valid requested) || contains b'.' requested
      then err invalid
      else if is_subdomain_used lower hostnames requested
      then err disallowed
      else if is_subdomain_blocked lower hostnames requested
      then err disallowed
      else ok (some requested)

  unfoldable pub subdomain_for_forwarding : Option Text → Result ValidationError (Option Text)
  subdomain_for_forwarding requested_hostname =
      let requested_hostname = unwrap_or_default requested_hostname in
      if is_empty requested_hostname
      then ok none
      else check_subdomain (normalized_client_subdomain requested_hostname)
