-- ===== src/Cert.antt =====
-- nport-server/src/cert/store.rs: the store of certificates. A time is a number of seconds, and the
-- libraries for X.509, keys and files are parameters.
pub mod Expiration
pub mod Resolve
pub mod Renewal
pub mod Fresh
pub mod Loading
pub mod Files
pub mod Cloudflare
pub mod Generator
mod Tests
mod RenewalTests
use nport.Prelude.{
  ℕ, zero, suc, ◌+◌, ◌*◌, ◌<◌, ◌≡◌, Bool, true, false, ◌||◌, Option, none, some, List, [], ◌∷◌,
  ◌++◌, Result, ok, err, length, ltb, if◌then◌else◌,
}
use nport.Text.{Text, codes, is_empty, split}
use nport.Text.Split.{join}
use nport.StringMap

pub record StoredCert : Type 0 where
  pub domain : Text
  pub private_key_der : Text
  pub certificate_der : Text

unfoldable pub validate : StoredCert → Result Text (Unit {0})
validate cert =
    if is_empty cert.domain
    then err (codes "empty domain")
    else if is_empty cert.private_key_der
    then err (codes "empty private key")
    else if is_empty cert.certificate_der
    then err (codes "empty certificate")
    else ok tt

-- `X509Certificate::from_der`: what follows the first certificate, and until when that is valid.
pub record X509 : Type 0 where
  pub from_der : Text → Result Text (Text × ℕ)
  -- A certificate has at least one byte.
  pub shorter :
      (der extra : Text) (not_after : ℕ)
      → from_der der ≡ ok (extra, not_after)
      → length extra < length der
  -- `Date::MAX`
  pub max_time : ℕ

abbrev pub earlier : ℕ → ℕ → ℕ
earlier t expiration = if ltb t expiration then t else expiration

module _ (x509 : X509) where
  -- The loop of `cert_expiration`; `none` is the end of the fuel.
  unfoldable pub read_chain : ℕ → ℕ → Text → Option (Result Text ℕ)
  read_chain zero expiration der = none
  read_chain (suc fuel) expiration der = elim (x509.from_der der) [
    | err e ↦ some (err e)
    | ok (extra, not_after) ↦ elim (is_empty extra) [
      | true ↦ some (ok (earlier not_after expiration))
      | false ↦ read_chain fuel (earlier not_after expiration) extra
    ]
  ]

  unfoldable pub cert_expiration : Text → Option (Result Text ℕ)
  cert_expiration der = read_chain (suc (length der)) x509.max_time der

-- The certificates in memory by name: the chain and its key.
abbrev pub Certs : Type 0
Certs = List (Text × (Text × Text))

abbrev pub wildcard_domain : Text → Text
wildcard_domain domain = codes "*." ++ domain

abbrev pub drop_first : List Text → List Text
drop_first [] = []
drop_first (part ∷ parts) = parts

-- The wildcard name that a server name falls under.
unfoldable pub top_level : Text → Text
top_level server_name = codes "*." ++ join (codes ".") (drop_first (split b'.' server_name))

abbrev pub or_else {ℓ} : {A : Type ℓ} → Option A → Option A → Option A
or_else none o = o
or_else (some a) o = some a

abbrev pub unwrap_or : Option Text → Text → Text
unwrap_or none d = d
unwrap_or (some s) d = s

-- The certificate for the server name that a TLS client gives.
unfoldable pub resolve : Certs → Text → Option Text → Option (Text × Text)
resolve certs domain sni =
    let server_name = unwrap_or sni domain in
    or_else (StringMap.get (top_level server_name) certs)
      (or_else (StringMap.get server_name certs) (StringMap.get domain certs))
