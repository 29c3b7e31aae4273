-- ===== src/Server/Registry/Locks.antt =====
-- nport-server/src/server/registry.rs, one lock at a time: the operations of the registry as the
-- tasks of many connections interleave them. Between two steps of one task any other may run.
pub mod Invariant
pub mod Reachable
mod Tests
use nport.Prelude.{
  ℕ, ◌<◌, ◌≡◌, ◌≢◌, Bool, true, false, Option, none, some, List, if◌then◌else◌, ◌==◌,
}
use nport.Text.{Text}
use nport.StringSet
use nport.Server.State.{World}
use nport.Server.Registry.{
  add_http_hostname, remove_http_hostname, set_claimed, set_clients, register, position,
  swap_remove, remove_all,
}

-- Where the task of a connection is. `leaving` holds the lock on the list of clients.
pub data Pc : Type 0 where
  idle : Pc
  -- `claim_http_hostname` has claimed the name and is to add it to the client.
  adding : (hostname : Text) → Pc
  -- `release_http_hostname` has removed the name from the client and is to give it back.
  unclaiming : (hostname : Text) → Pc
  -- `deregister` has removed the client from the list and is to give its names back.
  leaving : Pc
  gone : Pc

pub record System : Type 0 where
  pub world : World
  pub pc : ℕ → Pc

abbrev pub move : ℕ → Pc → World → System → System
move c p w s = record { world = w; pc = λ d. if d == c then p else s.pc d }

-- What `insert` on the claimed names leads to.
abbrev pub claimed_to : System → ℕ → Text → List Text × Bool → System
claimed_to s c hostname (claimed, new) =
    if new then move c (adding hostname) (set_claimed s.world claimed) s else s

abbrev pub removed_to : System → ℕ → Text → World × Bool → System
removed_to s c hostname (w, found) = if found then move c (unclaiming hostname) w s else s

-- Nobody holds the lock on the list of clients.
abbrev pub IsUnlocked : System → Type 0
IsUnlocked s = (d : ℕ) → s.pc d ≢ leaving

pub data Step (s : System) : System → Type 0 where
  registers : IsUnlocked s → Step s (move s.world.next idle (register s.world).0 s)
  claims :
      (c : ℕ) (hostname : Text)
      → c < s.world.next
      → s.pc c ≡ idle
      → Step s (
          claimed_to s c hostname
            (StringSet.insert hostname s.world.registry.claimed_http_hostnames))
  adds :
      (c : ℕ) (hostname : Text)
      → s.pc c ≡ adding hostname
      → Step s (move c idle (add_http_hostname s.world c hostname).0 s)
  removes :
      (c : ℕ) (hostname : Text)
      → c < s.world.next
      → s.pc c ≡ idle
      → Step s (removed_to s c hostname (remove_http_hostname s.world c hostname))
  unclaims :
      (c : ℕ) (hostname : Text)
      → s.pc c ≡ unclaiming hostname
      → Step s (
          move c idle
            (set_claimed s.world
              (StringSet.remove hostname s.world.registry.claimed_http_hostnames).0)
            s)
  leaves :
      (c index : ℕ)
      → IsUnlocked s
      → c < s.world.next
      → s.pc c ≡ idle
      → position c s.world.registry.clients ≡ some index
      → Step s (move c leaving (set_clients s.world (swap_remove index s.world.registry.clients)) s)
  gives_back :
      (c : ℕ)
      → s.pc c ≡ leaving
      → Step s (
          move c gone
            (set_claimed s.world
              (remove_all (s.world.client c).hostnames s.world.registry.claimed_http_hostnames))
            s)

pub data Reach (s : System) : System → Type 0 where
  here : Reach s s
  next : {t u : System} → Reach s t → Step t u → Reach s u
