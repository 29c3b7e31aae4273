-- ===== src/Cert/Loading.antt =====
-- nport-server/src/cert/store.rs: which certificates are in memory after loading.
use nport.Prelude.{
  ◌≡◌, ◌⊎◌, refl, true, false, some, List, [], ◌∷◌, All, Result, ok, err, arith, Bool-cases, inl,
  inr, Result-cases,
}
use nport.Text.{Text, text_eq}
use nport.StringMap
use nport.StringMap.{get-insert}
use nport.Cert.{X509, StoredCert, Certs, validate}
use nport.Cert.Renewal.{Outside, add, ends_within, load_file, load, minimum_cert_load_duration}

module _ (x509 : X509) (o : Outside) where
  -- The certificate was in memory before, or it lasts a day and has a key that can be used.
  abbrev pub IsLoadable : Certs → Text → Text × Text → Type 0
  IsLoadable certs domain (der, key) =
      (StringMap.get domain certs ≡ some (der, key))
      ⊎ ((ends_within x509 o minimum_cert_load_duration der ≡ ok false)
          × (o.is_supported key ≡ true))

  abbrev pub HasSupportedKey : Result Text StoredCert → Type 0
  HasSupportedKey (err e) = Unit {0}
  HasSupportedKey (ok cert) = o.is_supported cert.private_key_der ≡ true

  added-IsLoadable :
      (certs : Certs) (cert : StoredCert)
      → ends_within x509 o minimum_cert_load_duration cert.certificate_der ≡ ok false
      → o.is_supported cert.private_key_der ≡ true
      → (domain : Text) (other : Text × Text)
      → StringMap.get domain
          (StringMap.insert cert.domain (cert.certificate_der, cert.private_key_der) certs)
        ≡ some other
      → IsLoadable certs domain other
  added-IsLoadable certs cert q k domain other g =
      let pair : Text × Text = (cert.certificate_der, cert.private_key_der) in
      let found = get-insert domain cert.domain pair certs in
      elim (Bool-cases (text_eq cert.domain domain)) [
        | inl e ↦ inr (ground (arith, e, q, found, g), ground (arith, e, k, found, g))
        | inr e ↦ inl (ground (arith, e, found, g))
      ]

  load_file-IsLoadable :
      (certs : Certs) (file : Result Text StoredCert)
      → HasSupportedKey file
      → (certs' : Certs) × (result : Result Text (Unit {0})) × (load_file x509 o certs file
          ≡ some (certs', result))
        × ((domain : Text) (cert : Text × Text)
            → StringMap.get domain certs' ≡ some cert
            → IsLoadable certs domain cert)
  unfolding load_file add
  load_file-IsLoadable certs (err e) k = (certs, err e, refl, λ domain cert g. inl g)
  load_file-IsLoadable certs (ok cert) k = elim (Result-cases (validate cert)) [
    | inl (e, p) ↦ (certs, err e, ground (arith, p), λ domain cert g. inl g)
    | inr (u, p) ↦
        elim (Result-cases (ends_within x509 o minimum_cert_load_duration cert.certificate_der)) [
          | inl (e, q) ↦ (certs, err e, ground (arith, p, q), λ domain cert g. inl g)
          | inr (true, q) ↦ (certs, ok tt, ground (arith, p, q), λ domain cert g. inl g)
          | inr (false, q) ↦
              let pair : Text × Text = (cert.certificate_der, cert.private_key_der) in
              (
                StringMap.insert cert.domain pair certs,
                ok tt,
                ground (arith, p, q, k),
                added-IsLoadable certs cert q k,
              )
        ]
  ]

  -- Loading does not panic if the TLS library supports the key of every file that can be read. After
  -- it, also where a file stopped it with an error, each certificate in memory was there before or
  -- lasts for at least a day and has a key that can be used.
  pub load_lem :
      (files : List (Result Text StoredCert)) (certs : Certs)
      → All HasSupportedKey files
      → (certs' : Certs) × (result : Result Text (Unit {0})) × (load x509 o certs files
          ≡ some (certs', result))
        × ((domain : Text) (cert : Text × Text)
            → StringMap.get domain certs' ≡ some cert
            → IsLoadable certs domain cert)
  unfolding load
  load_lem [] certs k = (certs, ok tt, refl, λ domain cert g. inl g)
  load_lem (file ∷ files) certs (k, more) =
      let (first, result, e, l) = load_file-IsLoadable certs file k in
      elim (Result-cases result) [
        | inl (m, r) ↦ (first, err m, ground (arith, e, r), l)
        | inr (u, r) ↦
            let (last, outcome, f, l') = load_lem files first more in
            (
              last,
              outcome,
              ground (arith, e, r, f),
              λ domain cert g. elim (l' domain cert g) [ inl h ↦ l domain cert h | inr h ↦ inr h ],
            )
      ]
