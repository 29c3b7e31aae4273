-- ===== src/Cert/Fresh.antt =====
-- nport-server/src/cert/store.rs: what renewal and loading achieve.
use nport.Prelude.{◌≡◌, true, false, ok}
use nport.Text.{Text}
use nport.StringMap
use nport.Cert.{X509, StoredCert}
use nport.Cert.Renewal.{Outside, ends_within, minimum_cert_renew_duration}

module _ (x509 : X509) (o : Outside) where
  -- The service gives a certificate for this name that can be used and lasts more than the time
  -- before which it is renewed.
  pub record IsServed (domain : Text) : Type 0 where
    pub cert : StoredCert
    pub given : o.request domain ≡ ok cert
    pub supported : o.is_supported cert.private_key_der ≡ true
    pub lasting : ends_within x509 o minimum_cert_renew_duration cert.certificate_der ≡ ok false
