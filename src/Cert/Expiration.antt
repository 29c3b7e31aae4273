-- ===== src/Cert/Expiration.antt =====
-- nport-server/src/cert/store.rs: until when a chain of certificates is valid.
use nport.Prelude.{
  ℕ, zero, suc, ◌≤◌, ◌<◌, ◌≡◌, inl, inr, true, false, some, List, [], ◌∷◌, Result, ok, err, arith,
  length, All, Bool-cases, Result-cases, any, ◌==◌, ==_refl,
}
use nport.Text.{Text, is_empty}
use nport.Cert.{X509, earlier, read_chain, cert_expiration}

module _ (x509 : X509) where
  -- The times at which the certificates of a chain end.
  pub data Chain : Text → List ℕ → Type 0 where
    last : (der : Text) (t : ℕ) → x509.from_der der ≡ ok ([], t) → Chain der (t ∷ [])
    more :
        (der extra : Text) (t : ℕ) (ts : List ℕ)
        → x509.from_der der ≡ ok (extra, t)
        → is_empty extra ≡ false
        → Chain extra ts
        → Chain der (t ∷ ts)

  -- The first that is reached of a limit and some times.
  pub record IsEarliest (limit : ℕ) (ts : List ℕ) (e : ℕ) : Type 0 where
    pub below : All (λ t. e ≤ t) ts
    pub limited : e ≤ limit
    pub attained : any (λ t. t == e) (limit ∷ ts) ≡ true

  IsEarliest-more :
      (limit t e : ℕ) (ts : List ℕ)
      → IsEarliest (earlier t limit) ts e
      → IsEarliest limit (t ∷ ts) e
  IsEarliest-more limit t e ts s = record {
    below = (ground (arith, s.limited), s.below);
    limited = ground (arith, s.limited);
    attained = ground (arith, s.attained);
  }

  IsEarliest-nil : (limit : ℕ) → IsEarliest limit [] limit
  IsEarliest-nil limit = record {
    below = tt;
    limited = ground arith;
    attained = ground (arith, ==_refl limit);
  }

  read_chain-Chain :
      {der : Text} {ts : List ℕ} (fuel limit : ℕ)
      → Chain der ts
      → length der < fuel
      → (e : ℕ) × (read_chain x509 fuel limit der ≡ some (ok e)) × IsEarliest limit ts e
  unfolding read_chain
  read_chain-Chain zero limit c h = absurd (omega (arith, h))
  read_chain-Chain (suc fuel) limit (last der t p) h = (
    earlier t limit,
    ground (arith, p),
    IsEarliest-more limit t (earlier t limit) [] (IsEarliest-nil (earlier t limit)),
  )
  read_chain-Chain (suc fuel) limit (more der extra t ts p n c) h =
      let shorter = x509.shorter der extra t p in
      let (e, r, s) = read_chain-Chain fuel (earlier t limit) c (omega (arith, h, shorter)) in
      (e, ground (arith, p, n, r), IsEarliest-more limit t e ts s)

  read_chain-total :
      (fuel limit : ℕ) (der : Text)
      → length der < fuel
      → (r : Result Text ℕ) × (read_chain x509 fuel limit der ≡ some r)
  unfolding read_chain
  read_chain-total zero limit der h = absurd (omega (arith, h))
  read_chain-total (suc fuel) limit der h = elim (Result-cases (x509.from_der der)) [
    | inl (e, p) ↦ (err e, ground (arith, p))
    | inr ((extra, t), p) ↦
        let shorter = x509.shorter der extra t p in
        elim (Bool-cases (is_empty extra)) [
          | inl n ↦ (ok (earlier t limit), ground (arith, p, n))
          | inr n ↦
              let (r, q) =
                read_chain-total fuel (earlier t limit) extra (omega (arith, h, shorter)) in
              (r, ground (arith, p, n, q))
        ]
  ]

  -- Reading the expiration of a chain always ends, whatever the bytes are. If they are a chain of
  -- certificates, the result is the earliest end among them, which no limit but the latest date
  -- can replace: it is not after any of the ends nor that date, and it is one of them.
  pub cert_expiration_lem :
      (der : Text)
      → ((r : Result Text ℕ) × (cert_expiration x509 der ≡ some r))
        × ((ts : List ℕ)
            → Chain der ts
            → (e : ℕ) × (cert_expiration x509 der ≡ some (ok e)) × IsEarliest x509.max_time ts e)
  unfolding cert_expiration
  cert_expiration_lem der = (
    read_chain-total (suc (length der)) x509.max_time der (omega arith),
    λ ts c. read_chain-Chain (suc (length der)) x509.max_time c (omega arith),
  )
