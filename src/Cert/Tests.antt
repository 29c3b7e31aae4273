-- ===== src/Cert/Tests.antt =====
-- Instances: certificates of one byte, which is the time at which they end.
use nport.Prelude.{ℕ, ◌<◌, ◌≡◌, refl, some, List, [], ◌∷◌, Result, ok, err, arith, length}
use nport.Text.{Text, codes}
use nport.Cert.{X509, Certs, validate, cert_expiration, read_chain}
use nport.Cert.Expiration.{Chain, IsEarliest, cert_expiration_lem}

abbrev byte_cert : Text → Result Text (Text × ℕ)
byte_cert [] = err (codes "no certificate")
byte_cert (t ∷ extra) = ok (extra, t)

byte_cert-shorter :
    (der extra : Text) (t : ℕ) → byte_cert der ≡ ok (extra, t) → length extra < length der
byte_cert-shorter [] extra t e = ground (arith, e)
byte_cert-shorter (b ∷ der) extra t e = ground (arith, e)

abbrev bytes : X509
bytes = record { from_der = byte_cert; shorter = byte_cert-shorter; max_time = 1000 }

cert_expiration_lem_example :
    ((r : Result Text ℕ) × (cert_expiration bytes (7 ∷ 3 ∷ 9 ∷ []) ≡ some r))
    × ((ts : List ℕ)
        → Chain bytes (7 ∷ 3 ∷ 9 ∷ []) ts
        → (e : ℕ) × (cert_expiration bytes (7 ∷ 3 ∷ 9 ∷ []) ≡ some (ok e))
          × IsEarliest bytes 1000 ts e)
cert_expiration_lem_example = cert_expiration_lem bytes (7 ∷ 3 ∷ 9 ∷ [])

cert_expiration_test : cert_expiration bytes (7 ∷ 3 ∷ 9 ∷ []) ≡ some (ok 3)
unfolding cert_expiration read_chain
cert_expiration_test = refl

validate_test :
    validate (record { domain = []; private_key_der = []; certificate_der = [] })
    ≡ err (codes "empty domain")
unfolding validate
validate_test = refl

abbrev certs : Certs
certs = (codes "*.nport.io", (codes "chain", codes "key")) ∷ []
