-- ===== src/Server/Msghandlers/Http.antt =====
-- nport-server/src/server/msghandlers/http.rs: opening and closing an HTTP forwarding.
use nport.Prelude.{ℕ, not, Option, none, some, ◌++◌, Result, ok, err, if◌then◌else◌}
use nport.Text.{Text, codes, is_empty}
use nport.Text.Lowercase.{Lowercase}
use nport.Messages.Client.{HttpOpen, HttpClose}
use nport.Messages.Server.{
  http_opened, http_closed, HttpOpenError, http_open_error_raw, not_registered,
  http_close_error_raw,
}
use nport.Server.Hostnames.{Hostnames, unwrap_or_default}
use nport.Server.Stats.{inc, dec}
use nport.Server.State.{World}
use nport.Server.Env.{Env}
use nport.Server.Client.{Error, send}
use nport.Server.Registry.{claim_http_hostname, release_http_hostname}
use nport.Server.Forwarding.{
  ValidationError, invalid, disallowed, subdomain_for_forwarding, unwrap_or,
}

abbrev pub open_error : ValidationError → HttpOpenError
open_error invalid = HttpOpenError.invalid
open_error disallowed = HttpOpenError.disallowed

abbrev pub full_hostname : Text → Text → Text
full_hostname domain subdomain =
    if is_empty domain then subdomain else subdomain ++ (codes "." ++ domain)

abbrev pub count_hostname : World → World
count_hostname w =
    let stats = w.stats in
    record w { stats = record stats { http_hostnames = inc stats.http_hostnames } }

abbrev pub uncount_hostname : World → World
uncount_hostname w =
    let stats = w.stats in
    record w { stats = record stats { http_hostnames = dec stats.http_hostnames } }

module _ (env : Env) where
  -- `open` once the host name is settled.
  unfoldable pub open_hostname : World → ℕ → HttpOpen → Text → World × Result Error (Unit {0})
  open_hostname w c request hostname =
      let (w', claimed) = claim_http_hostname w c hostname in
      if not claimed
      then send env w' c (
          http_opened (record {
            hostname = hostname;
            local_address = request.local_address;
            error = some (http_open_error_raw HttpOpenError.in_use);
          }))
      else send env (count_hostname w') c (
          http_opened
            (record { hostname = hostname; local_address = request.local_address; error = none }))

  -- `open` on the answer of `subdomain_for_forwarding`.
  unfoldable pub answer_open :
      Text
      → World
      → ℕ
      → HttpOpen
      → Result ValidationError (Option Text)
      → World × Result Error (Unit {0})
  answer_open domain w c request (err error) = send env w c (
      http_opened (record {
        hostname = unwrap_or_default request.hostname;
        local_address = request.local_address;
        error = some (http_open_error_raw (open_error error));
      }))
  answer_open domain w c request (ok subdomain) =
      open_hostname w c request (full_hostname domain (unwrap_or subdomain env.generated))

  unfoldable pub open_forwarding :
      (lower : Lowercase) (hostnames : Hostnames)
      → World
      → ℕ
      → HttpOpen
      → World × Result Error (Unit {0})
  open_forwarding lower hostnames w c request =
      answer_open hostnames.domain w c request
        (subdomain_for_forwarding lower hostnames request.hostname)

  unfoldable pub close_forwarding : World → ℕ → HttpClose → World × Result Error (Unit {0})
  close_forwarding w c request =
      let (w', released) = release_http_hostname w c request.hostname in
      if released
      then send env (uncount_hostname w') c
          (http_closed (record { hostname = request.hostname; error = none }))
      else send env w' c (
          http_closed (record {
            hostname = request.hostname;
            error = some (http_close_error_raw not_registered);
          }))
