-- ===== src/Cert/Renewal.antt =====
-- nport-server/src/cert/store.rs: the certificates in memory, loading and renewing them.
use nport.Prelude.{
  ℕ, ◌+◌, ◌*◌, Bool, true, ◌||◌, Option, none, some, List, [], ◌∷◌, Result, ok, err, ltb,
  if◌then◌else◌,
}
use nport.Text.{Text}
use nport.StringMap
use nport.StringMap.{get-insert}
use nport.Cert.{X509, StoredCert, Certs, validate, cert_expiration, wildcard_domain}

abbrev pub minimum_cert_load_duration : ℕ
minimum_cert_load_duration = 24 * 3600

abbrev pub minimum_cert_renew_duration : ℕ
minimum_cert_renew_duration = 30 * (24 * 3600)

-- What the store asks of the world outside: the time, keys that the TLS library supports, and the
-- certificate that the ACME service gives for a name.
pub record Outside : Type 0 where
  pub now : ℕ
  pub is_supported : Text → Bool
  pub request : Text → Result Text StoredCert

module _ (x509 : X509) (o : Outside) where
  -- `none` is the panic of `unwrap` on a key that is not supported.
  unfoldable pub add : Certs → Text → Text → Text → Option Certs
  add certs domain private_key_der certificate_der =
      if o.is_supported private_key_der
      then some (StringMap.insert domain (certificate_der, private_key_der) certs)
      else none

  -- Whether a certificate ends in less than `duration`, or an error.
  unfoldable pub ends_within : ℕ → Text → Result Text Bool
  ends_within duration der = elim (cert_expiration x509 der) [
    | none ↦ err []
    | some result ↦ elim result [
      | err e ↦ err e
      | ok expiration ↦ ok (ltb expiration (o.now + duration))
    ]
  ]

  unfoldable pub should_renew_cert : Certs → Text → Bool
  should_renew_cert certs domain = elim (StringMap.get domain certs) [
    | none ↦ true
    | some (der, key) ↦ elim (ends_within minimum_cert_renew_duration der) [
      | err e ↦ true
      | ok soon ↦ soon
    ]
  ]

  unfoldable pub should_renew : Certs → Text → Bool
  should_renew certs domain =
      should_renew_cert certs domain || should_renew_cert certs (wildcard_domain domain)

  -- One file of the directory, as `read_to_string` and `from_str` give it.
  unfoldable pub load_file :
      Certs → Result Text StoredCert → Option (Certs × Result Text (Unit {0}))
  load_file certs (err e) = some (certs, err e)
  load_file certs (ok cert) = elim (validate cert) [
    | err e ↦ some (certs, err e)
    | ok _ ↦ elim (ends_within minimum_cert_load_duration cert.certificate_der) [
      | err e ↦ some (certs, err e)
      | ok soon ↦
          if soon
          then some (certs, ok tt)
          else elim (add certs cert.domain cert.private_key_der cert.certificate_der) [
            | none ↦ none
            | some certs' ↦ some (certs', ok tt)
          ]
    ]
  ]

  unfoldable pub load :
      Certs → List (Result Text StoredCert) → Option (Certs × Result Text (Unit {0}))
  load certs [] = some (certs, ok tt)
  load certs (file ∷ files) = elim (load_file certs file) [
    | none ↦ none
    | some (certs', result) ↦ elim result [
      | err e ↦ some (certs', err e)
      | ok _ ↦ load certs' files
    ]
  ]

  -- `update_cert` adds the certificate; a file that cannot be written is only logged.
  unfoldable pub renew_cert : Certs → Text → Option (Certs × Result Text (Unit {0}))
  renew_cert certs domain = elim (o.request domain) [
    | err e ↦ some (certs, err e)
    | ok cert ↦ elim (add certs domain cert.private_key_der cert.certificate_der) [
      | none ↦ none
      | some certs' ↦ some (certs', ok tt)
    ]
  ]

  unfoldable pub renew_one : Certs → Text → Option (Certs × Result Text (Unit {0}))
  renew_one certs domain =
      if should_renew_cert certs domain then renew_cert certs domain else some (certs, ok tt)

  unfoldable pub renew : Certs → Text → Option (Certs × Result Text (Unit {0}))
  renew certs domain =
      if should_renew certs domain
      then elim (renew_one certs domain) [
        | none ↦ none
        | some (certs', result) ↦ elim result [
          | err e ↦ some (certs', err e)
          | ok _ ↦ renew_one certs' (wildcard_domain domain)
        ]
      ]
      else some (certs, ok tt)
