-- ===== src/Server/Registry/Effects.antt =====
-- What each operation of the registry does to the names that are claimed, to the names that each
-- client holds, and to the list of clients.
use nport.Prelude.{
  ℕ, suc, ◌+◌, ◌≡◌, refl, inl, inr, Bool, false, not, ◌||◌, ◌&&◌, List, [], ◌∷◌, arith, ◌==◌,
  if◌then◌else◌, Option-cases,
}
use nport.Text.{Text, text_eq}
use nport.StringSet
use nport.Server.State.{World, count}
use nport.Server.Registry.{
  add_http_hostname, remove_http_hostname, has_http_hostname, register, position, remove_all,
  deregister, claim_http_hostname, release_http_hostname,
}
use nport.Server.Registry.Invariant.{count-append, count-swap_remove, position-none, IsRegistered}

abbrev pub claimed : World → Text → Bool
claimed w h = StringSet.contains h w.registry.claimed_http_hostnames

-- register
pub count-register :
    (w : World) (c : ℕ)
    → count c (register w).0.registry.clients
      ≡ count c w.registry.clients + (if w.next == c then 1 else 0)
unfolding register
count-register w c = count-append c w.next w.registry.clients

pub has-register :
    (w : World) (c : ℕ) (h : Text)
    → has_http_hostname (register w).0 c h
      ≡ (if c == w.next then false else has_http_hostname w c h)
unfolding register has_http_hostname
has-register w c h = ground (arith, StringSet.contains-nil h)

pub claimed-register : (w : World) (h : Text) → claimed (register w).0 h ≡ claimed w h
unfolding register
claimed-register w h = refl

pub next-register : (w : World) → (register w).0.next ≡ suc w.next
unfolding register
next-register w = refl

-- claim_http_hostname
module _ (w : World) (c : ℕ) (h : Text) where
  pub claim_result : (claim_http_hostname w c h).1 ≡ not (claimed w h)
  unfolding claim_http_hostname
  claim_result = ground (arith, StringSet.insert_new h w.registry.claimed_http_hostnames)

  pub clients-claim : (claim_http_hostname w c h).0.registry.clients ≡ w.registry.clients
  unfolding claim_http_hostname add_http_hostname
  clients-claim = ground arith

  pub next-claim : (claim_http_hostname w c h).0.next ≡ w.next
  unfolding claim_http_hostname add_http_hostname
  next-claim = ground arith

  pub claimed-claim :
      (k : Text) → claimed (claim_http_hostname w c h).0 k ≡ (text_eq h k || claimed w k)
  unfolding claim_http_hostname add_http_hostname
  claimed-claim k = ground (arith, StringSet.contains-insert k h w.registry.claimed_http_hostnames)

  pub has-claim :
      (d : ℕ) (k : Text)
      → has_http_hostname (claim_http_hostname w c h).0 d k
        ≡ ((not (claimed w h) && (d == c) && text_eq h k) || has_http_hostname w d k)
  unfolding claim_http_hostname add_http_hostname has_http_hostname
  has-claim d k = ground (
    arith,
    StringSet.insert_new h w.registry.claimed_http_hostnames,
    StringSet.contains-insert k h (w.client c).hostnames,
  )

-- release_http_hostname
module _ (w : World) (c : ℕ) (h : Text) where
  pub release_result : (release_http_hostname w c h).1 ≡ has_http_hostname w c h
  unfolding release_http_hostname remove_http_hostname has_http_hostname
  release_result = ground (arith, StringSet.remove_found h (w.client c).hostnames)

  pub clients-release : (release_http_hostname w c h).0.registry.clients ≡ w.registry.clients
  unfolding release_http_hostname remove_http_hostname
  clients-release = ground arith

  pub next-release : (release_http_hostname w c h).0.next ≡ w.next
  unfolding release_http_hostname remove_http_hostname
  next-release = ground arith

  pub claimed-release :
      (k : Text)
      → claimed (release_http_hostname w c h).0 k
        ≡ (not (has_http_hostname w c h && text_eq h k) && claimed w k)
  unfolding release_http_hostname remove_http_hostname has_http_hostname
  claimed-release k = ground (
    arith,
    StringSet.remove_found h (w.client c).hostnames,
    StringSet.contains-remove k h w.registry.claimed_http_hostnames,
  )

  pub has-release :
      (d : ℕ) (k : Text)
      → has_http_hostname (release_http_hostname w c h).0 d k
        ≡ (not ((d == c) && text_eq h k) && has_http_hostname w d k)
  unfolding release_http_hostname remove_http_hostname has_http_hostname
  has-release d k = ground (arith, StringSet.contains-remove k h (w.client c).hostnames)

-- deregister
pub contains-remove_all :
    (k : Text) (names claimed : List Text)
    → StringSet.contains k (remove_all names claimed)
      ≡ (not (StringSet.contains k names) && StringSet.contains k claimed)
contains-remove_all k [] claimed = ground (arith, StringSet.contains-nil k)
contains-remove_all k (h ∷ names) claimed = ground (
  arith,
  contains-remove_all k names (StringSet.remove h claimed).0,
  StringSet.contains-remove k h claimed,
  StringSet.contains-cons k h names,
)

if_same : (c : ℕ) → ◌≡◌ {A = ℕ} (if c == c then 1 else 0) 1
if_same c = ground arith

module _ (w : World) (c : ℕ) where
  -- The whole effect: nothing for a client that is not registered.
  pub deregister_absent : count c w.registry.clients ≡ 0 → deregister w c ≡ (w, false)
  unfolding deregister
  deregister_absent h = elim (Option-cases (position c w.registry.clients)) [
    | inl e ↦ rw (e, deregister)
    | inr (i, e) ↦ absurd (omega (arith, count-swap_remove c c i w.registry.clients e, if_same c))
  ]

  pub count-deregister :
      (d : ℕ)
      → IsRegistered w c
      → count d (deregister w c).0.registry.clients + (if c == d then 1 else 0)
        ≡ count d w.registry.clients
  unfolding deregister
  count-deregister d r = elim (Option-cases (position c w.registry.clients)) [
    | inl e ↦ absurd (omega (arith, position-none c w.registry.clients e))
    | inr (i, e) ↦ rw (e, deregister) (count-swap_remove d c i w.registry.clients e)
  ]

  pub claimed-deregister :
      (k : Text)
      → IsRegistered w c
      → claimed (deregister w c).0 k ≡ (not (has_http_hostname w c k) && claimed w k)
  unfolding deregister has_http_hostname
  claimed-deregister k r = elim (Option-cases (position c w.registry.clients)) [
    | inl e ↦ absurd (omega (arith, position-none c w.registry.clients e))
    | inr (i, e) ↦
        rw (e, deregister)
          (contains-remove_all k (w.client c).hostnames w.registry.claimed_http_hostnames)
  ]

  pub has-deregister :
      (d : ℕ) (k : Text) → has_http_hostname (deregister w c).0 d k ≡ has_http_hostname w d k
  unfolding deregister has_http_hostname
  has-deregister d k = ground arith

  pub next-deregister : (deregister w c).0.next ≡ w.next
  unfolding deregister
  next-deregister = ground arith
