-- ===== src/Server/Registry/Preservation.antt =====
-- Every operation of the registry keeps its invariant.
use nport.Prelude.{ℕ, sym, ◌∙◌, inl, inr, arith, ==_refl, Bool-cases}
use native.Mathlib.Decide.{ℕ_discrete}
use nport.Text.{Text}
use nport.Text.Laws.{text_eq_iff}
use nport.Server.State.{World, count}
use nport.Server.Registry.{register, deregister, claim_http_hostname, release_http_hostname}
use nport.Server.Registry.Invariant.{IsRegistered, Inv}
use nport.Server.Registry.Effects.{
  claimed, count-register, has-register, claimed-register, next-register, clients-claim, next-claim,
  claimed-claim, has-claim, clients-release, next-release, claimed-release, has-release,
  deregister_absent, count-deregister, claimed-deregister, has-deregister, next-deregister,
}

pub register-Inv : (w : World) → Inv w → Inv (register w).0
register-Inv w v = record {
  distinct = λ c. ground (arith, count-register w c, v.distinct c, v.allocated c);
  allocated = λ c r. ground (arith, count-register w c, v.allocated c, next-register w);
  held = λ c h p.
      ground (arith, count-register w c, has-register w c h, claimed-register w h, v.held c h);
  owned = λ h k.
      let (c, p) = v.owned h (sym (claimed-register w h) ∙ k) in
      (
        c,
        (ground (arith, count-register w c), ground (arith, has-register w c h, v.allocated c p.0)),
      );
  unique = λ c d h p q. ground (
    arith,
    count-register w c,
    count-register w d,
    has-register w c h,
    has-register w d h,
    v.unique c d h,
  );
}

module _ (w : World) (c : ℕ) (h : Text) (v : Inv w) where
  -- A claim is made by a registered client.
  pub claim-Inv : IsRegistered w c → Inv (claim_http_hostname w c h).0
  claim-Inv r = record {
    distinct = λ d. rw (clients-claim w c h) (v.distinct d);
    allocated = λ d q. rw (next-claim w c h) (v.allocated d (rw (clients-claim w c h) at q));
    held = λ d k p. ground (
      arith,
      clients-claim w c h,
      has-claim w c h d k,
      claimed-claim w c h k,
      v.held d k,
      text_eq_iff h k,
    );
    owned = λ k e. elim (Bool-cases (claimed w k)) [
      | inl old ↦
          let (d, p) = v.owned k old in
          (d, (ground (arith, clients-claim w c h), ground (arith, has-claim w c h d k)))
      | inr new ↦ (
        c,
        (
          ground (arith, clients-claim w c h),
          ground (arith, has-claim w c h c k, claimed-claim w c h k, text_eq_iff h k, ==_refl c),
        ),
      )
    ];
    unique = λ a b k p q. ground (
      arith,
      clients-claim w c h,
      has-claim w c h a k,
      has-claim w c h b k,
      v.held a k,
      v.held b k,
      v.unique a b k,
      text_eq_iff h k,
    );
  }

  -- A release by a registered client, whether or not it holds the name.
  pub release-Inv : IsRegistered w c → Inv (release_http_hostname w c h).0
  release-Inv r = record {
    distinct = λ d. rw (clients-release w c h) (v.distinct d);
    allocated = λ d q. rw (next-release w c h) (v.allocated d (rw (clients-release w c h) at q));
    held = λ d k p. ground (
      arith,
      clients-release w c h,
      has-release w c h d k,
      claimed-release w c h k,
      v.held d k,
      v.unique c d k,
      text_eq_iff h k,
    );
    owned = λ k e.
        let (d, p) = v.owned k (ground (arith, claimed-release w c h k)) in
        (
          d,
          (
            ground (arith, clients-release w c h),
            ground (arith, has-release w c h d k, claimed-release w c h k, text_eq_iff h k),
          ),
        );
    unique = λ a b k p q. ground (
      arith,
      clients-release w c h,
      has-release w c h a k,
      has-release w c h b k,
      v.unique a b k,
    );
  }

deregister_registered-Inv : (w : World) (c : ℕ) → Inv w → IsRegistered w c → Inv (deregister w c).0
deregister_registered-Inv w c v r = record {
  distinct = λ d. ground (arith, count-deregister w c d r, v.distinct d);
  allocated = λ d q. ground (arith, count-deregister w c d r, v.allocated d, next-deregister w c);
  held = λ d k p. ground (
    arith,
    count-deregister w c d r,
    has-deregister w c d k,
    claimed-deregister w c k r,
    v.held d k,
    v.unique c d k,
    v.distinct c,
  );
  owned = λ k e.
      let (d, p) = v.owned k (ground (arith, claimed-deregister w c k r)) in
      (
        d,
        (
          ground (arith, count-deregister w c d r, claimed-deregister w c k r),
          ground (arith, has-deregister w c d k),
        ),
      );
  unique = λ a b k p q. ground (
    arith,
    count-deregister w c a r,
    count-deregister w c b r,
    has-deregister w c a k,
    has-deregister w c b k,
    v.unique a b k,
  );
}

pub deregister-Inv : (w : World) (c : ℕ) → Inv w → Inv (deregister w c).0
deregister-Inv w c v = elim (ℕ_discrete (count c w.registry.clients) 0) [
  | yes e ↦ rw (deregister_absent w c e) v
  | no n ↦ deregister_registered-Inv w c v (omega arith)
]
