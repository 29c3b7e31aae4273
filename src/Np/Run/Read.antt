-- ===== src/Np/Run/Read.antt =====
-- np/src/lib.rs: the loop `'read` over the messages of the server, and the outer loop around it.
use nport.Prelude.{ℕ, Bool, true, false, Option, none, some, List, [], ◌∷◌, ok, err}
use nport.Text.{Text}
use nport.Server.State.{PortMessage}
use nport.Np.Env.{Env}
use nport.Np.Client.{Client, recv}
use nport.Np.Dispatch.{Handled, message}
use nport.Np.Dispatch.Http.{Hyper}
use nport.Np.Run.{State, Tunnel, round}

-- What the loop leaves: the client, what went into the channels of connections, the newest first,
-- and whether receiving has failed.
pub record Reading : Type 0 where
  pub client : Client
  pub written : List (ℕ × PortMessage)
  pub failed : Bool

abbrev add_written : Option (ℕ × PortMessage) → List (ℕ × PortMessage) → List (ℕ × PortMessage)
add_written none items = items
add_written (some item) items = item ∷ items

-- A handled message; its error is only logged.
abbrev take : Reading → Handled → Reading
take r h = record r { client = h.client; written = add_written h.written r.written }

-- `'read` over the answers of the outside, one for each turn. `none` is that a handler does
-- not return.
unfoldable pub read : Hyper → List Env → Reading → Option Reading
read hyper [] r = some r
read hyper (env ∷ envs) r = elim (recv env r.client) [
  | err e ↦ some (record r { failed = true })
  | ok msg ↦ elim (message hyper env r.client msg) [
    | none ↦ none
    | some h ↦ read hyper envs (take r h)
  ]
]

abbrev pub reading : Client → Reading
reading client = record { client = client; written = []; failed = false }

-- The outside during one turn of the outer loop: the connection with the tunnels, and the turns of
-- `'read`.
pub record Turn : Type 0 where
  pub env : Env
  pub reads : List Env

-- The outer loop, over its turns: the state in which the last of them leaves it, also where that is
-- in the middle of `'read`. `none` is the end of the process,
-- or a handler that does not return.
unfoldable pub loop : Hyper → Text → Text → Bool → List Tunnel → List Turn → State → Option State
loop hyper os server secure tunnels [] s = some s
loop hyper os server secure tunnels (turn ∷ turns) s =
    elim (round turn.env os server secure tunnels s) [
      | none ↦ none
      | some (t, false) ↦ loop hyper os server secure tunnels turns t
      | some (t, true) ↦ elim (read hyper turn.reads (reading t.client)) [
        | none ↦ none
        | some r ↦ elim r.failed [
          | true ↦ loop hyper os server secure tunnels turns (record t { client = r.client })
          | false ↦ some (record t { client = r.client })
        ]
      ]
    ]
