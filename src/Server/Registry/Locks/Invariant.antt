-- ===== src/Server/Registry/Locks/Invariant.antt =====
-- Who owns a name while the operations interleave.
use nport.Prelude.{
  ℕ, ◌≤◌, ◌<◌, ◌≡◌, Bool, true, false, ◌&&◌, ◌||◌, some, arith, if◌then◌else◌, ltb, Bool-cases, inl,
  inr,
}
use nport.Text.{Text, text_eq}
use nport.Text.Laws.{text_eq_iff, text_eq_refl}
use nport.StringSet
use nport.Server.State.{count}
use nport.Server.Registry.{
  add_http_hostname, remove_http_hostname, has_http_hostname, set_claimed, set_clients, register,
  position, swap_remove, remove_all,
}
use nport.Server.Registry.Invariant.{count-append, count-swap_remove}
use nport.Server.Registry.Effects.{contains-remove_all}
use nport.Server.Registry.Locks.{
  Pc, idle, adding, unclaiming, leaving, gone, System, move, claimed_to, removed_to, Step,
  registers, claims, adds, removes, unclaims, leaves, gives_back,
}

abbrev pub is_member : Pc → Bool
is_member leaving = false
is_member gone = false
is_member _ = true

-- The names that a task has in transit or in its client.
abbrev pub holds_at : Pc → Text → Bool → Bool
holds_at idle h has = has
holds_at (adding k) h has = text_eq k h || has
holds_at (unclaiming k) h has = text_eq k h || has
holds_at leaving h has = has
holds_at gone h has = false

abbrev pub owns : System → ℕ → Text → Bool
owns s c h = ltb c s.world.next && holds_at (s.pc c) h (has_http_hostname s.world c h)

abbrev pub claimed : System → Text → Bool
claimed s h = StringSet.contains h s.world.registry.claimed_http_hostnames

pub record LockInv (s : System) : Type 0 where
  pub members :
      (c : ℕ)
      → count c s.world.registry.clients
        ≡ (if ltb c s.world.next && is_member (s.pc c) then 1 else 0)
  pub fresh : (c : ℕ) → s.world.next ≤ c → s.pc c ≡ idle
  pub held : (c : ℕ) (h : Text) → owns s c h ≡ true → claimed s h ≡ true
  pub owned : (h : Text) → claimed s h ≡ true → (c : ℕ) × (owns s c h ≡ true)
  pub unique : (c d : ℕ) (h : Text) → owns s c h ≡ true → owns s d h ≡ true → c ≡ d
  pub apart : (c : ℕ) (h : Text) → s.pc c ≡ unclaiming h → has_http_hostname s.world c h ≡ false

module _ {s : System} (v : LockInv s) where
  open v use {members, fresh, held, owned, unique, apart}

  registers-LockInv : LockInv (move s.world.next idle (register s.world).0 s)
  unfolding register has_http_hostname
  registers-LockInv = record {
    members = λ c.
        ground (arith, members c, count-append c s.world.next s.world.registry.clients, fresh c);
    fresh = λ c l. ground (arith, fresh c);
    held = λ c h o. ground (arith, held c h, StringSet.contains-nil h);
    owned = λ h k. let (c, o) = owned h k in (c, ground (arith, o));
    unique = λ c d h o p. ground (arith, unique c d h, StringSet.contains-nil h);
    apart = λ c h p. ground (arith, apart c h);
  }

  claims-LockInv :
      (c : ℕ) (hostname : Text)
      → c < s.world.next
      → s.pc c ≡ idle
      → LockInv (
          claimed_to s c hostname
            (StringSet.insert hostname s.world.registry.claimed_http_hostnames))
  unfolding StringSet.insert has_http_hostname
  claims-LockInv c k l p = elim (Bool-cases (claimed s k)) [
    | inl e ↦ rw e v
    | inr e ↦ rw e record {
      members = λ d. ground (arith, members d, p);
      fresh = λ d m. ground (arith, fresh d);
      held = λ d h o. ground (
        arith,
        held d h,
        p,
        text_eq_iff k h,
        StringSet.contains-cons h k s.world.registry.claimed_http_hostnames,
      );
      owned = λ h q. elim (Bool-cases (text_eq k h)) [
        | inl same ↦ (c, ground (arith, same, p, l))
        | inr other ↦
            let (d, o) = owned h (
              ground (
                arith,
                q,
                other,
                StringSet.contains-cons h k s.world.registry.claimed_http_hostnames,
              )) in
            (d, ground (arith, o, p))
      ];
      unique = λ d f h o q. ground (arith, unique d f h, held d h, held f h, text_eq_iff k h, p, e);
      apart = λ d h q. ground (arith, apart d h);
    }
  ]

  adds-LockInv :
      (c : ℕ) (hostname : Text)
      → s.pc c ≡ adding hostname
      → LockInv (move c idle (add_http_hostname s.world c hostname).0 s)
  unfolding add_http_hostname has_http_hostname
  adds-LockInv c k p = record {
    members = λ d. ground (arith, members d, p);
    fresh = λ d m. ground (arith, fresh d);
    held = λ d h o.
        ground (arith, held d h, p, StringSet.contains-insert h k (s.world.client c).hostnames);
    owned = λ h q.
        let (d, o) = owned h q in
        (d, ground (arith, o, p, StringSet.contains-insert h k (s.world.client c).hostnames));
    unique = λ d f h o q.
        ground (arith, unique d f h, p, StringSet.contains-insert h k (s.world.client c).hostnames);
    apart = λ d h q. ground (arith, apart d h);
  }

  removes-LockInv :
      (c : ℕ) (hostname : Text)
      → c < s.world.next
      → s.pc c ≡ idle
      → LockInv (removed_to s c hostname (remove_http_hostname s.world c hostname))
  unfolding remove_http_hostname has_http_hostname
  removes-LockInv c k l p =
      let found = StringSet.remove_found k (s.world.client c).hostnames in
      elim (Bool-cases (has_http_hostname s.world c k)) [
        | inl e ↦
            rw (found, e)
              record {
                members = λ d. ground (arith, members d, p);
                fresh = λ d m. ground (arith, fresh d);
                held = λ d h o. ground (
                  arith,
                  held d h,
                  p,
                  e,
                  text_eq_iff k h,
                  StringSet.contains-remove h k (s.world.client c).hostnames,
                );
                owned = λ h q.
                    let (d, o) = owned h q in
                    (
                      d,
                      ground
                          (arith, o, p, StringSet.contains-remove h k (s.world.client c).hostnames),
                    );
                unique = λ d f h o q. ground (
                  arith,
                  unique d f h,
                  p,
                  e,
                  text_eq_iff k h,
                  StringSet.contains-remove h k (s.world.client c).hostnames,
                );
                apart = λ d h q. ground (
                  arith,
                  apart d h,
                  StringSet.contains-remove h k (s.world.client c).hostnames,
                  text_eq_refl k,
                );
              }
        | inr e ↦ rw (found, e) v
      ]

  unclaims-LockInv :
      (c : ℕ) (hostname : Text)
      → s.pc c ≡ unclaiming hostname
      → LockInv (
          move c idle
            (set_claimed s.world
              (StringSet.remove hostname s.world.registry.claimed_http_hostnames).0)
            s)
  unfolding has_http_hostname
  unclaims-LockInv c k p = record {
    members = λ d. ground (arith, members d, p);
    fresh = λ d m. ground (arith, fresh d);
    held = λ d h o. ground (
      arith,
      held d h,
      unique d c h,
      apart c k,
      fresh c,
      text_eq_iff k h,
      p,
      StringSet.contains-remove h k s.world.registry.claimed_http_hostnames,
    );
    owned = λ h q.
        let back = StringSet.contains-remove h k s.world.registry.claimed_http_hostnames in
        let (d, o) = owned h (ground (arith, q, back)) in (d, ground (arith, o, p, q, back));
    unique = λ d f h o q. ground (arith, unique d f h, p);
    apart = λ d h q. ground (arith, apart d h);
  }

  leaves-LockInv :
      (c index : ℕ)
      → c < s.world.next
      → s.pc c ≡ idle
      → position c s.world.registry.clients ≡ some index
      → LockInv
          (move c leaving (set_clients s.world (swap_remove index s.world.registry.clients)) s)
  unfolding has_http_hostname
  leaves-LockInv c i l p q = record {
    members = λ d. ground (arith, members d, p, count-swap_remove d c i s.world.registry.clients q);
    fresh = λ d m. ground (arith, fresh d);
    held = λ d h o. ground (arith, held d h, p);
    owned = λ h k. let (d, o) = owned h k in (d, ground (arith, o, p));
    unique = λ d f h o k. ground (arith, unique d f h, p);
    apart = λ d h k. ground (arith, apart d h);
  }

  gives_back-LockInv :
      (c : ℕ)
      → s.pc c ≡ leaving
      → LockInv (
          move c gone
            (set_claimed s.world
              (remove_all (s.world.client c).hostnames s.world.registry.claimed_http_hostnames))
            s)
  unfolding has_http_hostname
  gives_back-LockInv c p = record {
    members = λ d. ground (arith, members d, p);
    fresh = λ d m. ground (arith, fresh d, fresh c, p);
    held = λ d h o. ground (
      arith,
      held d h,
      unique d c h,
      fresh c,
      p,
      contains-remove_all h (s.world.client c).hostnames s.world.registry.claimed_http_hostnames,
    );
    owned = λ h q.
        let back =
          contains-remove_all h (s.world.client c).hostnames
            s.world.registry.claimed_http_hostnames in
        let (d, o) = owned h (ground (arith, q, back)) in (d, ground (arith, o, p, q, back));
    unique = λ d f h o q. ground (arith, unique d f h, p);
    apart = λ d h q. ground (arith, apart d h);
  }

pub Step-LockInv : {s t : System} → Step s t → LockInv s → LockInv t
Step-LockInv (registers u) v = registers-LockInv v
Step-LockInv (claims c h l p) v = claims-LockInv v c h l p
Step-LockInv (adds c h p) v = adds-LockInv v c h p
Step-LockInv (removes c h l p) v = removes-LockInv v c h l p
Step-LockInv (unclaims c h p) v = unclaims-LockInv v c h p
Step-LockInv (leaves c i u l p q) v = leaves-LockInv v c i l p q
Step-LockInv (gives_back c p) v = gives_back-LockInv v c p
