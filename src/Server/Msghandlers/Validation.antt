-- ===== src/Server/Msghandlers/Validation.antt =====
-- nport-server/src/server/msghandlers/port.rs: which remote addresses a client may ask for.
use nport.Prelude.{
  true, ==_refl, ℕ, suc, ◌+◌, ◌*◌, ◌%◌, ◌<◌, ◌≤◌, ◌≡◌, ◌≢◌, ◌↔◌, ◌⊎◌, refl, sym, ◌∙◌, ap, Option,
  none, some, [], ◌∷◌, ◌++◌, map, length, length-append, Bool-cases, inl, inr, ok, err, arith,
}
use nport.Text.{Text, codes, text_eq}
use nport.Text.Laws.{text_eq_iff}
use nport.Text.Lowercase.{Lowercase, IsAscii, HasNoUpper, to_ascii_lowercase}
use nport.Addr.Sockets.{Net}
use nport.Addr.{from_address, to_address, from_host_and_port}
use nport.Messages.{Address}
use nport.Messages.Client.{PortOpen}
use nport.Messages.Server.{PortOpened, port_opened, host_not_allowed, port_open_error_raw}
use nport.Server.Hostnames.{Hostnames}
use nport.Server.State.{World}
use nport.Server.Env.{Env}
use nport.Server.Forwarding.{normalized_client_subdomain}
use nport.Server.Forwarding.Laws.{normalized-qualified}
use nport.Server.Msghandlers.Port.{
  check_host, validate_address, validate_open, open_port, open_forwarding, server,
}
use nport.Server.Client.{send}

-- The answer to a request for the server's own host.
abbrev refusal : Net → Hostnames → PortOpen → PortOpened
refusal net hostnames request = record {
  protocol = request.protocol;
  remote_address = some (
      to_address
        (from_host_and_port net hostnames.tcp_hostname (from_address request.remote_address).port));
  local_address = request.local_address;
  error = some (port_open_error_raw host_not_allowed);
}

module _ (lower : Lowercase) (hostnames : Hostnames) where
  abbrev pub IsAllowedHost : Option Text → Type 0
  IsAllowedHost none = Unit {0}
  IsAllowedHost (some hostname) =
      normalized_client_subdomain lower hostnames hostname ≡ hostnames.tcp_hostname

  check_host_iff :
      (host : Option Text) → (check_host lower hostnames host ≡ ok tt) ↔ IsAllowedHost host
  unfolding check_host
  check_host_iff none = (λ e. tt, λ e. refl)
  check_host_iff (some hostname) = ground (
    arith,
    text_eq_iff (normalized_client_subdomain lower hostnames hostname) hostnames.tcp_hostname,
  )

  -- A remote address passes exactly when its 32-bit port is 0 or from 1024 up, and its host, if it
  -- has one, has the server's TCP host name for its normal form.
  pub validate_address_iff :
      (address : Address)
      → (validate_address lower hostnames (some address) ≡ ok tt)
        ↔ (((address.port ≡ 0) ⊎ (1024 ≤ address.port)) × IsAllowedHost address.host)
  unfolding validate_address
  validate_address_iff address = ground (arith, check_host_iff address.host)

  open_port_bound :
      (env : Env) (w : World) (c p : ℕ) (request : PortOpen)
      → validate_open lower hostnames request ≡ ok tt
      → (from_address request.remote_address).port ≡ p
      → env.bind p ≡ some p
      → (open_port lower hostnames env w c request).1 ≡ ok p
  unfolding open_port server
  open_port_bound env w c p request valid same bound = rw (valid, open_port, same, bound, server)

  large_port : (k p : ℕ) → 0 < p → p < 1024 → (suc k * 65536 + p) % 65536 ≡ p
  large_port k p lo hi = omega arith

  valid_large :
      (k p : ℕ)
      → validate_address lower hostnames (some (record { host = none; port = suc k * 65536 + p }))
        ≡ ok tt
  valid_large k p =
      (validate_address_iff (record { host = none; port = suc k * 65536 + p })).1
        (inr (omega arith), tt)

  -- The check does not hold of the port that is bound: a request without a host for a port whose
  -- lower 16 bits are a privileged port, and which is larger, passes, and that privileged port is
  -- bound and reported as opened wherever the system lets it.
  pub open_port_privileged :
      (env : Env) (w : World) (c k p : ℕ) (request : PortOpen)
      → 0 < p
      → p < 1024
      → request.remote_address ≡ some (record { host = none; port = suc k * 65536 + p })
      → env.bind p ≡ some p
      → (open_port lower hostnames env w c request).1 ≡ ok p
  unfolding from_address
  open_port_privileged env w c k p request lo hi e bound =
      open_port_bound env w c p request (ap (validate_address lower hostnames) e ∙ valid_large k p)
        (ap (λ a. (from_address a).port) e ∙ large_port k p lo hi) bound

  longer : (s d : Text) → map to_ascii_lowercase s ≢ s ++ (codes "." ++ d)
  longer s d e =
      omega (arith, ap length e, length-map_lower s, length-append {0} s (codes "." ++ d))
    where
      length-map_lower : (s : Text) → length (map to_ascii_lowercase s) ≡ length s
      length-map_lower [] = refl
      length-map_lower (b ∷ s) = ap suc (length-map_lower s)

  own_refused :
      (tcp : Text)
      → hostnames.tcp_hostname ≡ tcp ++ (codes "." ++ hostnames.domain)
      → IsAscii tcp
      → IsAscii hostnames.domain
      → HasNoUpper hostnames.domain
      → check_host lower hostnames (some hostnames.tcp_hostname) ≡ err host_not_allowed
  unfolding check_host
  own_refused tcp e a d u =
      let normal : normalized_client_subdomain lower hostnames hostnames.tcp_hostname
          ≡ map to_ascii_lowercase tcp =
        ap (normalized_client_subdomain lower hostnames) e
        ∙ normalized-qualified lower hostnames tcp a d u in
      elim (Bool-cases (
        text_eq (normalized_client_subdomain lower hostnames hostnames.tcp_hostname)
          hostnames.tcp_hostname)) [
            | inl same ↦
                absurd (longer tcp hostnames.domain (sym normal ∙ (text_eq_iff _ _).0 same ∙ e))
            | inr other ↦ rw other
          ]

  own_not_allowed :
      (request : PortOpen) (port : ℕ)
      → check_host lower hostnames (some hostnames.tcp_hostname) ≡ err host_not_allowed
      → request.remote_address ≡ some (record { host = some hostnames.tcp_hostname; port = port })
      → (port ≡ 0) ⊎ (1024 ≤ port)
      → validate_open lower hostnames request ≡ err host_not_allowed
  unfolding validate_address
  own_not_allowed request port k e b =
      ap (validate_address lower hostnames) e ∙ ground (arith, k, b)

  open_port_refused :
      (env : Env) (w : World) (c : ℕ) (request : PortOpen)
      → validate_open lower hostnames request ≡ err host_not_allowed
      → open_port lower hostnames env w c request ≡ (w, err host_not_allowed)
  unfolding open_port
  open_port_refused env w c request k = ground (arith, k)

  refused-open_forwarding :
      (net : Net) (env : Env) (w : World) (c : ℕ) (request : PortOpen)
      → validate_open lower hostnames request ≡ err host_not_allowed
      → open_forwarding lower net hostnames env w c request
        ≡ send env w c (port_opened (refusal net hostnames request))
  unfolding open_forwarding
  refused-open_forwarding net env w c request k = rw (open_port_refused env w c request k) refl

  -- The server refuses its own TCP host name: where it is a subdomain of an ASCII domain without
  -- upper-case letters, a request for a port, 0 or not privileged, that names it as the remote host
  -- opens nothing, and over a working link it is answered with `HostNotAllowed`.
  pub own_host_refused :
      (tcp : Text) (net : Net) (env : Env) (w : World) (c port : ℕ) (request : PortOpen)
      → hostnames.tcp_hostname ≡ tcp ++ (codes "." ++ hostnames.domain)
      → IsAscii tcp
      → IsAscii hostnames.domain
      → HasNoUpper hostnames.domain
      → request.remote_address ≡ some (record { host = some hostnames.tcp_hostname; port = port })
      → (port ≡ 0) ⊎ (1024 ≤ port)
      → env.link ≡ true
      → let w' = (open_forwarding lower net hostnames env w c request).0 in
        (answer : PortOpened) × ((w'.client c).sent ≡ port_opened answer ∷ (w.client c).sent)
        × (answer.error ≡ some (port_open_error_raw host_not_allowed))
        × ((w'.client c).open_ports ≡ (w.client c).open_ports)
        × (w'.stats ≡ w.stats)
  unfolding send
  own_host_refused tcp net env w c port request e a d u r b l =
      let refused =
        refused-open_forwarding net env w c request
          (own_not_allowed request port (own_refused tcp e a d u) r b) in
      (
        refusal net hostnames request,
        ap (λ p. (p.0.client c).sent) refused ∙ ground (arith, l, ==_refl c),
        refl,
        ap (λ p. (p.0.client c).open_ports) refused ∙ ground (arith, l, ==_refl c),
        ap (λ p. p.0.stats) refused ∙ ground (arith, l),
      )
