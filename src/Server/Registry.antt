-- ===== src/Server/Registry.antt =====
-- nport-server/src/server/registry.rs: the connected clients and the host names they hold.
pub mod Invariant
pub mod Effects
pub mod Preservation
pub mod Ownership
pub mod Locks
mod Tests
use nport.Prelude.{
  ℕ, suc, Bool, true, false, not, Option, none, some, List, [], ◌∷◌, ◌++◌, ◌==◌, if◌then◌else◌,
}
use mathlib.Core.Option
use nport.Text.{Text}
use nport.StringSet
use nport.Server.State.{new_client, World, update_client}

-- Client::add_http_hostname, remove_http_hostname, has_http_hostname
unfoldable pub add_http_hostname : World → ℕ → Text → World × Bool
add_http_hostname w c hostname =
    let (names, new) = StringSet.insert hostname (w.client c).hostnames in
    (update_client c (record (w.client c) { hostnames = names }) w, new)

unfoldable pub remove_http_hostname : World → ℕ → Text → World × Bool
remove_http_hostname w c hostname =
    let (names, found) = StringSet.remove hostname (w.client c).hostnames in
    (update_client c (record (w.client c) { hostnames = names }) w, found)

unfoldable pub has_http_hostname : World → ℕ → Text → Bool
has_http_hostname w c hostname = StringSet.contains hostname (w.client c).hostnames

abbrev pub set_claimed : World → List Text → World
set_claimed w names =
    let registry = w.registry in
    record w { registry = record registry { claimed_http_hostnames = names } }

abbrev pub set_clients : World → List ℕ → World
set_clients w clients =
    let registry = w.registry in record w { registry = record registry { clients = clients } }

-- The new client is the object at the first free address.
unfoldable pub register : World → World × ℕ
register w =
    let c = w.next in
    (
      set_clients (record (update_client c new_client w) { next = suc c })
          (w.registry.clients ++ c ∷ []),
      c,
    )

-- `iter().position(|item| Arc::ptr_eq(item, &client))`
unfoldable pub position : ℕ → List ℕ → Option ℕ
position c [] = none
position c (x ∷ xs) = if x == c then some 0 else Option.map suc (position c xs)

abbrev pub last_or : ℕ → List ℕ → ℕ
last_or x [] = x
last_or x (y ∷ xs) = last_or y xs

abbrev pub but_last : ℕ → List ℕ → List ℕ
but_last x [] = []
but_last x (y ∷ xs) = x ∷ but_last y xs

-- `Vec::swap_remove`: the last entry takes the place of the removed one.
unfoldable pub swap_remove : ℕ → List ℕ → List ℕ
swap_remove i [] = []
swap_remove ℕ.zero (x ∷ []) = []
swap_remove ℕ.zero (x ∷ y ∷ xs) = last_or y xs ∷ but_last y xs
swap_remove (suc i) (x ∷ xs) = x ∷ swap_remove i xs

abbrev pub remove_all : List Text → List Text → List Text
remove_all [] claimed = claimed
remove_all (hostname ∷ names) claimed = remove_all names (StringSet.remove hostname claimed).0

unfoldable pub deregister : World → ℕ → World × Bool
deregister w c = elim (position c w.registry.clients) [
  | none ↦ (w, false)
  | some index ↦
      let w' = set_clients w (swap_remove index w.registry.clients) in
      (set_claimed w' (remove_all (w'.client c).hostnames w'.registry.claimed_http_hostnames), true)
]

unfoldable pub claim_http_hostname : World → ℕ → Text → World × Bool
claim_http_hostname w c hostname =
    let (claimed, new) = StringSet.insert hostname w.registry.claimed_http_hostnames in
    let w' = set_claimed w claimed in
    if not new then (w', false) else ((add_http_hostname w' c hostname).0, true)

unfoldable pub release_http_hostname : World → ℕ → Text → World × Bool
release_http_hostname w c hostname =
    let (w', found) = remove_http_hostname w c hostname in
    if not found
    then (w', false)
    else (set_claimed w' (StringSet.remove hostname w'.registry.claimed_http_hostnames).0, true)

-- The loop of `get_by_http_hostname`, with its `break`.
unfoldable pub first_with : World → Text → List ℕ → Option ℕ
first_with w hostname [] = none
first_with w hostname (c ∷ cs) =
    if has_http_hostname w c hostname then some c else first_with w hostname cs

unfoldable pub get_by_http_hostname : World → Text → Option ℕ
get_by_http_hostname w hostname = first_with w hostname w.registry.clients
