-- ===== src/Server/Registry/Locks/Reachable.antt =====
-- What holds whatever the interleaving is, and when no operation is under way.
use nport.Prelude.{ℕ, ◌≡◌, refl, true, [], arith, ◌⊎◌, inl, inr}
use nport.Text.{Text}
use nport.StringSet
use nport.Server.State.{World}
use nport.Server.Registry.Invariant.{Inv, Holds}
use nport.Server.Registry.Locks.{idle, gone, System, Reach, here, next}
use nport.Server.Registry.Locks.Invariant.{LockInv, Step-LockInv, owns, claimed}

-- Nothing has happened yet.
pub record IsEmpty (w : World) : Type 0 where
  pub no_clients : w.registry.clients ≡ []
  pub no_names : w.registry.claimed_http_hostnames ≡ []
  pub none_allocated : w.next ≡ 0

abbrev pub start : World → System
start w = record { world = w; pc = λ c. idle }

start-LockInv : (w : World) → IsEmpty w → LockInv (start w)
start-LockInv w e = record {
  members = λ c. ground (arith, e.no_clients, e.none_allocated);
  fresh = λ c l. refl;
  held = λ c h o. ground (arith, e.none_allocated, o);
  owned = λ h k. absurd (ground (arith, e.no_names, k, StringSet.contains-nil h));
  unique = λ c d h o p. ground (arith, e.none_allocated, o);
  apart = λ c h p. cc;
}

Reach-LockInv : {s t : System} → Reach s t → LockInv s → LockInv t
Reach-LockInv here v = v
Reach-LockInv (next r st) v = Step-LockInv st (Reach-LockInv r v)

-- Every task is between two operations, or has ended.
abbrev pub IsQuiet : System → Type 0
IsQuiet s = (c : ℕ) → (s.pc c ≡ idle) ⊎ (s.pc c ≡ gone)

Holds-owns : {s : System} → LockInv s → (c : ℕ) (h : Text) → Holds s.world c h → owns s c h ≡ true
Holds-owns {s} v c h (r, has) = ground (arith, v.members c, r, has)

quiet-Holds :
    {s : System}
    → LockInv s
    → IsQuiet s
    → (c : ℕ) (h : Text) → owns s c h ≡ true
    → Holds s.world c h
quiet-Holds {s} v q c h o = elim (q c) [
  | inl p ↦ (ground (arith, v.members c, p, o), ground (arith, p, o))
  | inr p ↦ absurd (ground (arith, p, o))
]

quiet-Inv : {s : System} → LockInv s → IsQuiet s → Inv s.world
quiet-Inv {s} v q = record {
  distinct = λ c. ground (arith, v.members c);
  allocated = λ c r. ground (arith, v.members c, r);
  held = λ c h p. v.held c h (Holds-owns v c h p);
  owned = λ h k. let (c, o) = v.owned h k in (c, quiet-Holds v q c h o);
  unique = λ c d h p r. v.unique c d h (Holds-owns v c h p) (Holds-owns v d h r);
}

-- The tasks of any number of connections interleave, one lock at a time, from an empty registry. At
-- every moment no two registered clients hold the same name, and each name that a registered
-- client holds is claimed, so nobody else can claim it. Whenever no operation is under way, the
-- registry is well formed as the operations one after the other leave it.
pub names_unique :
    (w : World) (s : System)
    → IsEmpty w
    → Reach (start w) s
    → ((c d : ℕ) (h : Text) → Holds s.world c h → Holds s.world d h → c ≡ d)
      × ((c : ℕ) (h : Text) → Holds s.world c h → claimed s h ≡ true)
      × (IsQuiet s → Inv s.world)
names_unique w s e r =
    let v = Reach-LockInv r (start-LockInv w e) in
    (
      λ c d h p q. v.unique c d h (Holds-owns v c h p) (Holds-owns v d h q),
      λ c h p. v.held c h (Holds-owns v c h p),
      quiet-Inv v,
    )
