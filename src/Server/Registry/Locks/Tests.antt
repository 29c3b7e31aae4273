-- ===== src/Server/Registry/Locks/Tests.antt =====
-- Two clients that go for one name, their steps interleaved.
use nport.Prelude.{ℕ, ◌≡◌, refl, true, arith}
use nport.Text.{Text, codes, text_eq}
use nport.StringSet
use nport.Server.Session.Reachable.{empty_world}
use nport.Server.Registry.{register}
use nport.Server.Registry.Invariant.{Inv, Holds}
use nport.Server.Registry.Locks.{
  System, idle, adding, move, claimed_to, Reach, here, next, registers, claims,
}
use nport.Server.Registry.Locks.Invariant.{claimed}
use nport.Server.Registry.Locks.Reachable.{start, IsEmpty, IsQuiet, names_unique}

nothing : IsEmpty empty_world
nothing = record { no_clients = refl; no_names = refl; none_allocated = refl }

abbrev one : System
one = move 0 idle (register empty_world).0 (start empty_world)

abbrev two : System
two = move one.world.next idle (register one.world).0 one

abbrev name : Text
name = codes "foo"

-- The first has claimed the name and not yet added it; the second is refused.
abbrev first : System
first = claimed_to two 0 name (StringSet.insert name two.world.registry.claimed_http_hostnames)

abbrev second : System
second = claimed_to first 1 name (StringSet.insert name first.world.registry.claimed_http_hostnames)

run : Reach (start empty_world) second
unfolding register StringSet.insert StringSet.contains text_eq
run =
    next
      (next (next (next here (registers (λ d e. cc))) (registers (λ d e. ground (arith, e))))
        (claims 0 name (omega arith) refl))
      (claims 1 name (omega arith) refl)

names_unique_example :
    ((c d : ℕ) (h : Text) → Holds second.world c h → Holds second.world d h → c ≡ d)
    × ((c : ℕ) (h : Text) → Holds second.world c h → claimed second h ≡ true)
    × (IsQuiet second → Inv second.world)
names_unique_example = names_unique empty_world second nothing run

second_test : (second.pc 0 ≡ adding name) × (second.pc 1 ≡ idle)
unfolding register StringSet.insert StringSet.contains text_eq
second_test = (refl, refl)
