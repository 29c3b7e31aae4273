-- ===== src/Server/Session.antt =====
-- nport-server/src/server/handlers/websockets.rs: the life of one connection (`handle_socket`), and
-- the server as many of them at once. A handler is one step; the locks within it are not split.
pub mod Messages
pub mod Invariant
pub mod Reachable
pub mod Ports
pub mod Leak
mod Tests
use nport.Prelude.{
  ℕ, ◌+◌, ◌<◌, ◌≡◌, Bool, true, false, Option, none, some, List, [], ◌∷◌, Result, ok, err,
  if◌then◌else◌, ◌==◌,
}
use nport.Prelude.Int.{pos}
use nport.Text.{Text}
use nport.Text.Lowercase.{Lowercase}
use nport.Addr.Sockets.{Net}
use nport.Messages.Client.{Message}
use nport.Messages.Server.{print}
use nport.Server.Hostnames.{Hostnames}
use nport.Server.Stats.{inc, dec}
use nport.Server.State.{World, count, new_client}
use nport.Server.Env.{Env}
use nport.Server.Client.{Error, send}
use nport.Server.Registry.{register, deregister}
use nport.Server.Msghandlers.{msg}

abbrev pub count_client : World → World
count_client w =
    let stats = w.stats in
    record w { stats = record stats { client_connections = inc stats.client_connections } }

abbrev pub uncount_client : World → World
uncount_client w =
    let stats = w.stats in
    record w { stats = record stats { client_connections = dec stats.client_connections } }

-- The configuration of the server: `welcome` is the text that is made of the build information.
pub record Config : Type 0 where
  pub hostnames : Hostnames
  pub send_welcome_message : Bool
  pub welcome : Text

-- `PrintLevel::Info`
abbrev pub info_level : ℕ
info_level = 2

module _ (config : Config) where
  unfoldable pub send_welcome : Env → World → ℕ → World × Result Error (Unit {0})
  send_welcome env w c =
      if config.send_welcome_message
      then send env w c (print (record { message = config.welcome; level = info_level }))
      else (w, ok tt)

  -- `handle_socket` up to its loop: the client, or none where the function has returned.
  unfoldable pub connect : Env → World → World × Option ℕ
  connect env w =
      let (w', c) = register w in
      let (w'', result) = send_welcome env w' c in
      elim result [ ok _ ↦ (count_client w'', some c) | err _ ↦ (w'', none) ]

-- `handle_socket` after its loop.
unfoldable pub disconnect : World → ℕ → World
disconnect w c = uncount_client (deregister w c).0

-- The connections whose loop runs.
pub record Server : Type 0 where
  pub world : World
  pub active : List ℕ

unfoldable pub forget : ℕ → List ℕ → List ℕ
forget c [] = []
forget c (x ∷ xs) = if x == c then xs else x ∷ forget c xs

abbrev pub after : Server → ℕ → World × Result Error (Unit {0}) → Server
after s c (w, ok _) = record s { world = w }
after s c (w, err _) = record { world = disconnect w c; active = forget c s.active }

abbrev pub joined : Server → World × Option ℕ → Server
joined s (w, none) = record s { world = w }
joined s (w, some c) = record { world = w; active = c ∷ s.active }

module _ (lower : Lowercase) (net : Net) (config : Config) where
  -- One turn: a client connects, the loop of a connection handles a message that was received, or
  -- receiving fails and the loop ends. A handler that never returns is no turn.
  pub data Step (s : Server) : Server → Type 0 where
    connects : (env : Env) → Step s (joined s (connect config env s.world))
    handles :
        (env : Env) (c : ℕ) (m : Option Message)
        → 0 < count c s.active
        → Step s (after s c (msg lower net config.hostnames env s.world c m))
    ends :
        (c : ℕ)
        → 0 < count c s.active
        → Step s (record { world = disconnect s.world c; active = forget c s.active })

  pub data Reach (s : Server) : Server → Type 0 where
    here : Reach s s
    next : {t u : Server} → Reach s t → Step t u → Reach s u
