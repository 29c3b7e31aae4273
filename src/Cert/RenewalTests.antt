-- ===== src/Cert/RenewalTests.antt =====
-- Instances: renewal from an empty store, and a restart with two certificates.
use nport.Prelude.{
  zero, suc, ap, ◌⊎◌, ◌*◌, ℕ, ◌<◌, ◌≡◌, refl, true, some, [], ◌∷◌, Result, ok, err, arith, length,
}
use mathlib.Core.List.{reverse}
use nport.Text.{Text, codes}
use nport.StringMap
use nport.Cert.{validate, X509, StoredCert, Certs, wildcard_domain, cert_expiration, read_chain}
use nport.Cert.Renewal.{Outside, ends_within, load}
use nport.Text.Lowercase.{ascii_lowercase}
use nport.Cert.Files.{Files, Disk, Json, Store, update_cert, contents}
use nport.Cert.Files.RoundTrip.{IsWritable, IsUsable, restart_keeps}

-- A certificate of one byte, which is the day at which it ends.
abbrev byte_cert : Text → Result Text (Text × ℕ)
byte_cert [] = err (codes "no certificate")
byte_cert (t ∷ extra) = ok (extra, t * 86400)

byte_cert-shorter :
    (der extra : Text) (t : ℕ) → byte_cert der ≡ ok (extra, t) → length extra < length der
byte_cert-shorter [] extra t e = ground (arith, e)
byte_cert-shorter (b ∷ der) extra t e = ground (arith, e)

abbrev days : X509
days = record { from_der = byte_cert; shorter = byte_cert-shorter; max_time = 86400 * 1000 }

abbrev stored : Text → StoredCert
stored domain = record { domain = domain; private_key_der = codes "k"; certificate_der = 90 ∷ [] }

abbrev outside : Outside
outside = record { now = 0; is_supported = λ key. true; request = λ domain. ok (stored domain) }

abbrev domain : Text
domain = codes "nport.io"

abbrev write_text : Text → Text → Text
write_text [] s = 0 ∷ s
write_text (b ∷ t) s = suc b ∷ write_text t s

abbrev read_text : Text → Text × Text
read_text [] = ([], [])
read_text (zero ∷ s) = ([], s)
read_text (suc b ∷ s) = let (t, rest) = read_text s in (b ∷ t, rest)

read_text-write_text : (t s : Text) → read_text (write_text t s) ≡ (t, s)
read_text-write_text [] s = refl
read_text-write_text (b ∷ t) s = ground (arith, read_text-write_text t s)

abbrev encode : StoredCert → Text
encode cert = write_text cert.domain (write_text cert.private_key_der cert.certificate_der)

abbrev decode : Text → Result Text StoredCert
decode s =
    let (domain, more) = read_text s in
    let (key, der) = read_text more in
    ok (record { domain = domain; private_key_der = key; certificate_der = der })

decode-encode : (cert : StoredCert) → decode (encode cert) ≡ ok cert
decode-encode cert =
    rw
      (
        read_text-write_text cert.domain (write_text cert.private_key_der cert.certificate_der),
        read_text-write_text cert.private_key_der cert.certificate_der,
      )
      refl

abbrev json : Json
json = record { to_string = encode; from_str = decode; from_str-to_string = decode-encode }

abbrev disk : Disk
disk = record {
  create_dir_all = ok tt;
  write = λ path text. ok tt;
  left = λ path text files. files;
}

disk-IsWritable : IsWritable days ascii_lowercase disk json outside
disk-IsWritable = record { created = refl; written = λ path text. refl }

domain-IsUsable : IsUsable days ascii_lowercase disk json outside (stored domain)
unfolding ends_within cert_expiration read_chain validate
domain-IsUsable = record { complete = refl; supported = refl; lasting = refl }

wildcard_domain-IsUsable :
    IsUsable days ascii_lowercase disk json outside (stored (wildcard_domain domain))
unfolding ends_within cert_expiration read_chain validate
wildcard_domain-IsUsable = record { complete = refl; supported = refl; lasting = refl }

restart_keeps_example :
    (s₁ s₂ : Store days ascii_lowercase disk json outside) × (update_cert days ascii_lowercase disk
        json outside
        (record { certs = []; files = [] })
        domain
        (codes "k")
        (90 ∷ [])
      ≡ some s₁)
    × (update_cert days ascii_lowercase disk json outside s₁
          (wildcard_domain domain)
          (codes "k")
          (90 ∷ [])
        ≡ some s₂)
    × ((listing : Files)
        → (listing ≡ s₂.files) ⊎ (listing ≡ reverse s₂.files)
        → (certs : Certs) × (load days outside []
              (contents days ascii_lowercase disk json outside listing)
            ≡ some (certs, ok tt))
          × ((name : Text) → StringMap.get name certs ≡ StringMap.get name s₂.certs))
restart_keeps_example =
    restart_keeps days ascii_lowercase disk json outside (stored domain)
      (stored (wildcard_domain domain)) disk-IsWritable domain-IsUsable wildcard_domain-IsUsable
      (λ e. omega (arith, ap length e))
