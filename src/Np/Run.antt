-- ===== src/Np/Run.antt =====
-- np/src/lib.rs: connecting with retries, setting the tunnels up, and the loop over the messages.
pub mod Laws
pub mod Setup
pub mod Read
pub mod Command
pub mod Reconnect
pub mod Start
mod Tests
use nport.Prelude.{
  ℕ, ◌+◌, ◌*◌, ◌^◌, ◌%◌, Bool, true, false, Option, none, some, List, [], ◌∷◌, Result, ok, err, ltb,
  if◌then◌else◌,
}
use nport.Text.{Text}
use nport.Addr.{Addr, from_port}
use nport.Np.Env.{Env}
use nport.Np.Error.{Error}
use nport.Np.Client.{Client, connect, disconnect, http_open, tcp_open, recv}
use nport.Np.Dispatch.{Handled, message}
use nport.Np.Dispatch.Http.{Hyper}

abbrev pub max_connect_retries : ℕ
max_connect_retries = 5

-- In seconds.
abbrev pub connect_retry_delay : ℕ
connect_retry_delay = 1

-- settings.rs
pub data Tunnel : Type 0 where
  http : (hostname : Option Text) (local_addr : Addr) → Tunnel
  tcp : (remote_addr : Option Addr) (local_addr : Addr) → Tunnel

-- What the loop keeps: the client, the counter of retries, and the seconds that it has slept, the
-- last first.
pub record State : Type 0 where
  pub client : Client
  pub retries : ℕ
  pub slept : List ℕ

-- `connect_failure`; `none` is the end of the process. The power is that of a `u32`.
unfoldable pub connect_failure : State → Option State
connect_failure s =
    let retries = s.retries + 1 in
    if ltb max_connect_retries retries
    then none
    else some (record {
      client = disconnect s.client;
      retries = retries;
      slept = connect_retry_delay * (2 ^ retries % 2 ^ 32) ∷ s.slept;
    })

abbrev pub or_empty : Option Text → Text
or_empty none = []
or_empty (some hostname) = hostname

-- `Addr::default` has no host and port 0.
abbrev pub or_default : Option Addr → Addr
or_default none = from_port 0
or_default (some addr) = addr

unfoldable pub open_tunnel : Env → Client → Tunnel → Client × Result Error (Unit {0})
open_tunnel env client (http hostname local_addr) =
    http_open env client (or_empty hostname) local_addr
open_tunnel env client (tcp remote_addr local_addr) =
    tcp_open env client (or_default remote_addr) local_addr

-- The loop over the tunnels: the `continue` after a failure goes on with the next tunnel.
unfoldable pub open_tunnels : Env → State → List Tunnel → Option State
open_tunnels env s [] = some s
open_tunnels env s (tunnel ∷ tunnels) =
    let (client, result) = open_tunnel env s.client tunnel in
    elim result [
      | ok _ ↦ open_tunnels env (record s { client = client }) tunnels
      | err e ↦ elim (connect_failure (record s { client = client })) [
        | none ↦ none
        | some t ↦ open_tunnels env t tunnels
      ]
    ]

-- One round of the outer loop up to the loop `'read`: the flag says whether that is entered. `none`
-- is the end of the process.
unfoldable pub round : Env → Text → Text → Bool → List Tunnel → State → Option (State × Bool)
round env os server secure tunnels s =
    let (client, result) = connect env os s.client server secure in
    elim result [
      | err e ↦ elim (connect_failure (record s { client = client })) [
        | none ↦ none
        | some t ↦ some (t, false)
      ]
      | ok _ ↦ elim (open_tunnels env (record s { client = client }) tunnels) [
        | none ↦ none
        | some t ↦ some (record t { retries = 0 }, true)
      ]
    ]

-- The loop over rounds in which no connection can be made, as many as the fuel says: the state
-- after them, or none once the process has ended.
unfoldable pub unreachable : Env → Text → Text → Bool → List Tunnel → ℕ → State → Option State
unreachable env os server secure tunnels ℕ.zero s = some s
unreachable env os server secure tunnels (ℕ.suc n) s = elim (round env os server secure tunnels s) [
  | none ↦ none
  | some (t, read) ↦ unreachable env os server secure tunnels n t
]
