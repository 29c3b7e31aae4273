-- ===== src/Np/Run/Command.antt =====
-- np/src/lib.rs and settings.rs: from the command line and the settings to the tunnels.
use nport.Prelude.{
  ℕ, Bool, true, false, not, Option, none, some, List, [], ◌∷◌, ◌++◌, Result, ok, err,
  if◌then◌else◌,
}
use mathlib.Core.Option
use nport.Text.{Text, codes}
use nport.Addr.{Addr, from_port, from_host_and_port}
use nport.Addr.Sockets.{Net}
use nport.Np.Run.{Tunnel, http, tcp}

pub data Command : Type 0 where
  http_command tcp_command : (local_port : ℕ) → Command
  version : Command

pub record Arguments : Type 0 where
  pub hostname : Option Text
  pub remote_port : Option ℕ
  pub no_config_file : Option Bool
  pub command : Option Command

-- settings.rs
pub record ServerSettings : Type 0 where
  pub hostname : Text
  pub secure : Bool

pub record Settings : Type 0 where
  pub server : ServerSettings
  pub tunnels : Option (List Tunnel)

-- What `Settings::new` puts into the builder: later sources override earlier ones, and defaults all.
pub data Source : Type 0 where
  default_text : (key value : Text) → Source
  default_flag : (key : Text) (value : Bool) → Source
  environment : (prefix separator : Text) (try_parsing : Bool) → Source
  file : (name : Text) (required : Bool) → Source

abbrev pub default_server : Text
default_server = codes "api.nport.io"

unfoldable pub sources : Bool → List Source
sources use_config_file =
    default_text (codes "server.hostname") default_server
    ∷ default_flag (codes "server.secure") true
    ∷ environment (codes "NP") (codes "_") true
    ∷ (if use_config_file then file (codes "nport") false ∷ [] else [])

-- `build` and `try_deserialize` of the library.
abbrev pub Library : Type 0
Library = List Source → Result Text Settings

unfoldable pub new_settings : Library → Bool → Result Text Settings
new_settings library use_config_file = library (sources use_config_file)

-- How `run` goes on: it returns or ends the process, or it enters its loop.
pub data Start : Type 0 where
  bad_settings : Text → Start
  printed_version no_tunnels : Start
  runs : ServerSettings → List Tunnel → Start

module _ (net : Net) where
  abbrev pub unwrap_or_default : Option ℕ → ℕ
  unwrap_or_default none = 0
  unwrap_or_default (some port) = port

  -- The remote address of `Command::Tcp`.
  unfoldable pub remote_addr : Arguments → Option Addr
  remote_addr args = elim args.hostname [
    | some hostname ↦ some (from_host_and_port net hostname (unwrap_or_default args.remote_port))
    | none ↦ Option.map from_port args.remote_port
  ]

  abbrev pub or_nothing : Option (List Tunnel) → List Tunnel
  or_nothing none = []
  or_nothing (some tunnels) = tunnels

  -- The tunnels after the `match` on the command; `none` is the end of the process.
  unfoldable pub add_command : Arguments → List Tunnel → Option (List Tunnel)
  add_command args tunnels = elim args.command [
    | none ↦ some tunnels
    | some command ↦ elim command [
      | version ↦ none
      | http_command local_port ↦ some (tunnels ++ http args.hostname (from_port local_port) ∷ [])
      | tcp_command local_port ↦
          some (tunnels ++ tcp (remote_addr args) (from_port local_port) ∷ [])
    ]
  ]

  abbrev pub run_tunnels : ServerSettings → List Tunnel → Start
  run_tunnels server [] = no_tunnels
  run_tunnels server (tunnel ∷ tunnels) = runs server (tunnel ∷ tunnels)

  abbrev pub or_false : Option Bool → Bool
  or_false none = false
  or_false (some b) = b

  unfoldable pub start : Library → Arguments → Start
  start library args = elim (new_settings library (not (or_false args.no_config_file))) [
    | err e ↦ bad_settings e
    | ok s ↦ elim (add_command args (or_nothing s.tunnels)) [
      | none ↦ printed_version
      | some tunnels ↦ run_tunnels s.server tunnels
    ]
  ]
