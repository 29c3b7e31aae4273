-- ===== src/Server/Registry/Ownership.antt =====
-- What the registry promises: host names are owned by at most one client, first come first served.
-- The abstract state is the owner of each name; `get_by_http_hostname` is the view of the memory.
use nport.Prelude.{
  ℕ, ◌≡◌, refl, ◌∙◌, ◌≢◌, inl, inr, Bool, true, false, not, ◌&&◌, Option, none, some, arith, ◌==◌,
  ==_refl, if◌then◌else◌, Bool-cases, Option-cases, fun_ext,
}
use nport.Text.{Text, text_eq}
use nport.Text.Laws.{text_eq_iff}
use nport.Server.State.{World}
use nport.Server.Registry.{
  has_http_hostname, register, deregister, claim_http_hostname, release_http_hostname,
  get_by_http_hostname,
}
use nport.Server.Registry.Invariant.{IsRegistered, Holds, Inv, get_by_iff, get_by_none}
use nport.Server.Registry.Effects.{
  claimed, count-register, has-register, claim_result, clients-claim, has-claim, release_result,
  clients-release, has-release, count-deregister, has-deregister,
}
use nport.Server.Registry.Preservation.{register-Inv, claim-Inv, release-Inv, deregister-Inv}

abbrev pub Owners : Type 0
Owners = Text → Option ℕ

abbrev pub is_free : Option ℕ → Bool
is_free none = true
is_free (some _) = false

abbrev pub is_owner : ℕ → Option ℕ → Bool
is_owner c none = false
is_owner c (some d) = d == c

-- Claim a name: it becomes the client's if nobody owns it.
abbrev pub claim : ℕ → Text → Owners → Owners × Bool
claim c h o = (λ k. if text_eq h k && is_free (o h) then some c else o k, is_free (o h))

-- Release a name: only its owner can.
abbrev pub release : ℕ → Text → Owners → Owners × Bool
release c h o = (λ k. if text_eq h k && is_owner c (o h) then none else o k, is_owner c (o h))

-- A client leaves: all its names become free.
abbrev pub leave : ℕ → Owners → Owners
leave c o k = if is_owner c (o k) then none else o k

abbrev pub view : World → Owners
view w = get_by_http_hostname w

view_eq :
    (w : World) (k : Text) (o : Option ℕ)
    → Inv w
    → ((d : ℕ) → o ≡ some d → Holds w d k)
    → ((d : ℕ) → Holds w d k → o ≢ none)
    → view w k ≡ o
view_eq w k (some d) v s n = (get_by_iff v k d).1 (s d refl)
view_eq w k none v s n = elim (Option-cases (view w k)) [
  | inl e ↦ e
  | inr (d, e) ↦ absurd (n d ((get_by_iff v k d).0 e) refl)
]

claimed-view : (w : World) (h : Text) → Inv w → claimed w h ≡ not (is_free (view w h))
claimed-view w h v = elim (Option-cases (view w h)) [
  | inl e ↦ rw (e) ((get_by_none v h).0 e)
  | inr (d, e) ↦ rw (e) (v.held d h ((get_by_iff v h d).0 e))
]

owner_has :
    (w : World) (c : ℕ) (h : Text)
    → Inv w
    → IsRegistered w c
    → has_http_hostname w c h ≡ is_owner c (view w h)
owner_has w c h v r = elim (Option-cases (view w h)) [
  | inl e ↦ rw e (elim (Bool-cases (has_http_hostname w c h)) [
    | inl p ↦ ground (arith, (get_by_iff v h c).1 (r, p))
    | inr p ↦ p
  ])
  | inr (d, e) ↦ rw e (elim (Bool-cases (has_http_hostname w c h)) [
    | inl p ↦ ground (arith, (get_by_iff v h c).1 (r, p))
    | inr p ↦ ground (arith, (get_by_iff v h d).0 e)
  ])
]

owner_Holds : (w : World) (k : Text) (d : ℕ) → Inv w → view w k ≡ some d → Holds w d k
owner_Holds w k d v e = (get_by_iff v k d).0 e

Holds-owner : (w : World) (k : Text) (d : ℕ) → Inv w → Holds w d k → view w k ≡ some d
Holds-owner w k d v p = (get_by_iff v k d).1 p

-- A new client owns nothing, and no name changes hands.
pub register_refines : (w : World) → Inv w → view (register w).0 ≡ view w
register_refines w v = fun_ext λ k.
    view_eq (register w).0 k (view w k) (register-Inv w v)
      (λ d e.
        let p = owner_Holds w k d v e in
        ground (arith, v.allocated d p.0, count-register w d, has-register w d k))
      (λ d p. ground (arith, count-register w d, has-register w d k, Holds-owner w k d v))

module _ (w : World) (c : ℕ) (h : Text) (v : Inv w) (r : IsRegistered w c) where
  claim-some :
      (k : Text) (d : ℕ)
      → (claim c h (view w)).0 k ≡ some d
      → Holds (claim_http_hostname w c h).0 d k
  claim-some k d e = ground (
    arith,
    clients-claim w c h,
    has-claim w c h d k,
    claimed-view w h v,
    owner_Holds w k d v,
    ==_refl c,
  )

  claim-none :
      (k : Text) (d : ℕ) → Holds (claim_http_hostname w c h).0 d k → (claim c h (view w)).0 k ≢ none
  claim-none k d p =
      ground
        (arith, clients-claim w c h, has-claim w c h d k, claimed-view w h v, Holds-owner w k d v)

  -- Claiming a name refines the abstract claim, its answer included.
  pub claim_refines :
      (view (claim_http_hostname w c h).0 ≡ (claim c h (view w)).0)
      × ((claim_http_hostname w c h).1 ≡ (claim c h (view w)).1)
  claim_refines = (
    fun_ext λ k.
        view_eq (claim_http_hostname w c h).0 k ((claim c h (view w)).0 k) (claim-Inv w c h v r)
          (claim-some k) (claim-none k),
    ground (arith, claim_result w c h, claimed-view w h v),
  )

  release-some :
      (k : Text) (d : ℕ)
      → (release c h (view w)).0 k ≡ some d
      → Holds (release_http_hostname w c h).0 d k
  release-some k d e = ground (
    arith,
    clients-release w c h,
    has-release w c h d k,
    owner_has w c h v r,
    owner_Holds w k d v,
    text_eq_iff h k,
  )

  release-none :
      (k : Text) (d : ℕ)
      → Holds (release_http_hostname w c h).0 d k
      → (release c h (view w)).0 k ≢ none
  release-none k d p = ground (
    arith,
    clients-release w c h,
    has-release w c h d k,
    owner_has w c h v r,
    Holds-owner w k d v,
    text_eq_iff h k,
  )

  -- Releasing a name refines the abstract release, its answer included.
  pub release_refines :
      (view (release_http_hostname w c h).0 ≡ (release c h (view w)).0)
      × ((release_http_hostname w c h).1 ≡ (release c h (view w)).1)
  release_refines = (
    fun_ext λ k.
        view_eq (release_http_hostname w c h).0 k ((release c h (view w)).0 k)
          (release-Inv w c h v r) (release-some k) (release-none k),
    release_result w c h ∙ owner_has w c h v r,
  )

module _ (w : World) (c : ℕ) (v : Inv w) where
  leave-some :
      (k : Text) (d : ℕ)
      → IsRegistered w c
      → leave c (view w) k ≡ some d
      → Holds (deregister w c).0 d k
  leave-some k d r e =
      ground (arith, count-deregister w c d r, has-deregister w c d k, owner_Holds w k d v)

  leave-none :
      (k : Text) (d : ℕ)
      → IsRegistered w c
      → Holds (deregister w c).0 d k
      → leave c (view w) k ≢ none
  leave-none k d r p =
      ground
        (arith, count-deregister w c d r, has-deregister w c d k, v.distinct c, Holds-owner w k d v)

  -- Deregistering a client that is registered frees exactly the names that it owns.
  pub deregister_refines : IsRegistered w c → view (deregister w c).0 ≡ leave c (view w)
  deregister_refines r = fun_ext λ k.
      view_eq (deregister w c).0 k (leave c (view w) k) (deregister-Inv w c v)
        (λ d. leave-some k d r) (λ d. leave-none k d r)
