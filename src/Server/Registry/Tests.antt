-- ===== src/Server/Registry/Tests.antt =====
-- Two clients on a fresh registry; instances of the laws of ownership.
use nport.Prelude.{◌≡◌, refl, false, none, some, [], ◌∷◌, arith}
use nport.Text.{codes, text_eq}
use nport.Server.State.{World}
use nport.StringSet
use nport.Server.Registry.{
  register, claim_http_hostname, release_http_hostname, deregister, get_by_http_hostname,
  first_with, has_http_hostname, add_http_hostname, remove_http_hostname, position, swap_remove,
}
use nport.Server.Registry.Invariant.{Inv}
use nport.Server.Registry.Preservation.{register-Inv, claim-Inv}
use nport.Server.Registry.Ownership.{view, claim, leave, claim_refines, deregister_refines}
use nport.Server.Session.Reachable.{empty_world, empty-Inv}

registry : Unit {0}
unfolding register claim_http_hostname release_http_hostname deregister get_by_http_hostname
    first_with has_http_hostname add_http_hostname remove_http_hostname position swap_remove text_eq
    StringSet.contains StringSet.insert StringSet.remove
registry = tt

abbrev two : World
two = (register (register empty_world).0).0

two-Inv : Inv two
two-Inv = register-Inv (register empty_world).0 (register-Inv empty_world empty-Inv)

abbrev busy : World
busy = (claim_http_hostname two 0 (codes "a.x")).0

busy-Inv : Inv busy
unfolding register
busy-Inv = claim-Inv two 0 (codes "a.x") two-Inv (omega arith)

claim_refines_example :
    (view (claim_http_hostname two 0 (codes "a.x")).0 ≡ (claim 0 (codes "a.x") (view two)).0)
    × ((claim_http_hostname two 0 (codes "a.x")).1 ≡ (claim 0 (codes "a.x") (view two)).1)
unfolding register
claim_refines_example = claim_refines two 0 (codes "a.x") two-Inv (omega arith)

deregister_refines_example : view (deregister busy 0).0 ≡ leave 0 (view busy)
unfolding registry
deregister_refines_example = deregister_refines busy 0 busy-Inv (omega arith)

abbrev three : World
three = (register busy).0

registry_tests :
    (get_by_http_hostname two (codes "a.x") ≡ none)
    × (get_by_http_hostname busy (codes "a.x") ≡ some 0)
    × ((claim_http_hostname busy 1 (codes "a.x")).1 ≡ false)
    × ((deregister two 5).1 ≡ false)
    × ((deregister three 0).0.registry.clients ≡ 2 ∷ 1 ∷ [])
    × ((deregister three 0).0.registry.claimed_http_hostnames ≡ [])
unfolding registry
registry_tests = (refl, refl, refl, refl, refl, refl)
