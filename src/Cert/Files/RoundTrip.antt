-- ===== src/Cert/Files/RoundTrip.antt =====
-- nport-server/src/cert/store.rs: the names of the files, and a restart.
use nport.Prelude.{
  ◌≡◌, ◌≢◌, refl, ap, [], ◌∷◌, some, ok, arith, Bool-cases, inl, inr, true, false, ◌==◌, ◌⊎◌,
}
use mathlib.Core.List.{reverse}
use nport.Text.{Text}
use nport.Text.Laws.{text_eq_iff}
use nport.Text.Lowercase.{Lowercase, HasNoUpper}
use nport.StringMap
use nport.StringMap.{get-insert, get-nil}
use nport.Cert.{X509, StoredCert, Certs, validate}
use nport.Cert.Renewal.{Outside, add, ends_within, load, load_file, minimum_cert_load_duration}
use nport.Cert.Files.{
  Files, Disk, Json, Store, replace_star, cert_filename, store_cert, update_cert, contents,
}

-- In a text without upper-case letters the letters `STAR` come only from a star.
replace_star-injective :
    (s t : Text) → HasNoUpper s → HasNoUpper t → replace_star s ≡ replace_star t → s ≡ t
replace_star-injective [] [] a b e = refl
replace_star-injective [] (c ∷ t) a b e = elim (Bool-cases (c == b'*')) [
  | inl p ↦ ground (arith, p, e)
  | inr p ↦ ground (arith, p, e)
]
replace_star-injective (c ∷ s) [] a b e = elim (Bool-cases (c == b'*')) [
  | inl p ↦ ground (arith, p, e)
  | inr p ↦ ground (arith, p, e)
]
replace_star-injective (c ∷ s) (d ∷ t) (x, a) (y, b) e = elim (Bool-cases (c == b'*')) [
  | inl p ↦ elim (Bool-cases (d == b'*')) [
    | inl q ↦ ground (arith, p, q, e, replace_star-injective s t a b)
    | inr q ↦ ground (arith, p, q, e, y)
  ]
  | inr p ↦ elim (Bool-cases (d == b'*')) [
    | inl q ↦ ground (arith, p, q, e, x)
    | inr q ↦ ground (arith, p, q, e, replace_star-injective s t a b)
  ]
]

module _ (x509 : X509) (lower : Lowercase) (disk : Disk) (json : Json) (o : Outside) where
  -- The file system takes every file.
  pub record IsWritable : Type 0 where
    pub created : disk.create_dir_all ≡ ok tt
    pub written : (path text : Text) → disk.write path text ≡ ok tt

  -- A certificate that is complete, whose key is supported, and which lasts for a day.
  pub record IsUsable (cert : StoredCert) : Type 0 where
    pub complete : validate cert ≡ ok tt
    pub supported : o.is_supported cert.private_key_der ≡ true
    pub lasting : ends_within x509 o minimum_cert_load_duration cert.certificate_der ≡ ok false

  abbrev pub pair_of : StoredCert → Text × Text
  pair_of cert = (cert.certificate_der, cert.private_key_der)

  cert_filename-injective :
      (s t : Text)
      → cert_filename x509 lower disk json o s ≡ cert_filename x509 lower disk json o t
      → lower.to_lowercase s ≡ lower.to_lowercase t
  unfolding cert_filename
  cert_filename-injective s t e =
      replace_star-injective (lower.to_lowercase s) (lower.to_lowercase t) (lower.no_upper s)
        (lower.no_upper t) e

  update_cert-usable :
      (s : Store x509 lower disk json o) (cert : StoredCert)
      → IsWritable
      → IsUsable cert
      → update_cert x509 lower disk json o s cert.domain cert.private_key_der cert.certificate_der
        ≡ some record {
          certs = StringMap.insert cert.domain (pair_of cert) s.certs;
          files =
              StringMap.insert
                (cert_filename x509 lower disk json o cert.domain)
                (json.to_string cert)
                s.files;
        }
  unfolding update_cert store_cert add
  update_cert-usable s cert w u =
      let path = cert_filename x509 lower disk json o cert.domain in
      ground (arith, u.supported, w.created, w.written path (json.to_string cert))

  load_file-usable :
      (certs : Certs) (cert : StoredCert)
      → IsUsable cert
      → load_file x509 o certs (json.from_str (json.to_string cert))
        ≡ some (StringMap.insert cert.domain (pair_of cert) certs, ok tt)
  unfolding load_file add
  load_file-usable certs cert u =
      ground (arith, json.from_str-to_string cert, u.complete, u.lasting, u.supported)

  -- The files of two names stand side by side.
  files-two :
      (a b s t : Text)
      → lower.to_lowercase a ≢ lower.to_lowercase b
      → StringMap.insert
          (cert_filename x509 lower disk json o b)
          t
          (StringMap.insert (cert_filename x509 lower disk json o a) s [])
        ≡ (cert_filename x509 lower disk json o b, t)
          ∷ (cert_filename x509 lower disk json o a, s)
          ∷ []
  unfolding StringMap.insert StringMap.remove
  files-two a b s t n =
      let file = cert_filename x509 lower disk json o in
      ground (arith, text_eq_iff (file a) (file b), cert_filename-injective a b, n)

  load-two :
      (a b : StoredCert)
      → IsUsable a
      → IsUsable b
      → load x509 o [] (json.from_str (json.to_string a) ∷ json.from_str (json.to_string b) ∷ [])
        ≡ some (
          StringMap.insert b.domain (pair_of b) (StringMap.insert a.domain (pair_of a) []),
          ok tt,
        )
  unfolding load
  load-two a b u v = ground (
    arith,
    load_file-usable [] a u,
    load_file-usable (StringMap.insert a.domain (pair_of a) []) b v,
  )

  insert-swap :
      (a b : StoredCert)
      → lower.to_lowercase a.domain ≢ lower.to_lowercase b.domain
      → (name : Text)
      → StringMap.get name
          (StringMap.insert a.domain (pair_of a) (StringMap.insert b.domain (pair_of b) []))
        ≡ StringMap.get name
            (StringMap.insert b.domain (pair_of b) (StringMap.insert a.domain (pair_of a) []))
  insert-swap a b n name =
      let other : a.domain ≢ b.domain = λ e. n (ap lower.to_lowercase e) in
      let one = StringMap.insert a.domain (pair_of a) [] in
      let two = StringMap.insert b.domain (pair_of b) [] in
      ground (
        arith,
        get-insert name a.domain (pair_of a) two,
        get-insert name b.domain (pair_of b) one,
        get-insert name a.domain (pair_of a) [],
        get-insert name b.domain (pair_of b) [],
        text_eq_iff a.domain name,
        text_eq_iff b.domain name,
        other,
      )

  -- Two certificates that are complete, can be used and last for a day are put into a store with an
  -- empty directory that can be written, under names that differ also in lower case, as the domain
  -- and its wildcard do. Then a server that starts again, and reads the two files in whichever
  -- order, has exactly the certificates in memory that the store had.
  pub restart_keeps :
      (a b : StoredCert)
      → IsWritable
      → IsUsable a
      → IsUsable b
      → lower.to_lowercase a.domain ≢ lower.to_lowercase b.domain
      → (s₁ s₂ : Store x509 lower disk json o) × (update_cert x509 lower disk json o
            (record { certs = []; files = [] })
            a.domain
            a.private_key_der
            a.certificate_der
          ≡ some s₁)
        × (update_cert x509 lower disk json o s₁ b.domain b.private_key_der b.certificate_der
            ≡ some s₂)
        × ((listing : Files)
            → (listing ≡ s₂.files) ⊎ (listing ≡ reverse s₂.files)
            → (certs : Certs) × (load x509 o [] (contents x509 lower disk json o listing)
                ≡ some (certs, ok tt))
              × ((name : Text) → StringMap.get name certs ≡ StringMap.get name s₂.certs))
  unfolding contents
  restart_keeps a b w u v n =
      let file = cert_filename x509 lower disk json o in
      let certs = StringMap.insert a.domain (pair_of a) [] in
      let files = StringMap.insert (file a.domain) (json.to_string a) [] in
      let s : Store x509 lower disk json o = record { certs = certs; files = files } in
      (
        s,
        record {
          certs = StringMap.insert b.domain (pair_of b) certs;
          files = StringMap.insert (file b.domain) (json.to_string b) files;
        },
        update_cert-usable (record { certs = []; files = [] }) a w u,
        update_cert-usable s b w v,
        λ listing h. elim h [
          | inl e ↦ (
            StringMap.insert a.domain (pair_of a) (StringMap.insert b.domain (pair_of b) []),
            rw (e, files-two a.domain b.domain (json.to_string a) (json.to_string b) n)
                (load-two b a v u),
            insert-swap a b n,
          )
          | inr e ↦ (
            StringMap.insert b.domain (pair_of b) certs,
            rw (e, files-two a.domain b.domain (json.to_string a) (json.to_string b) n)
                (load-two a b u v),
            λ name. refl,
          )
        ],
      )
