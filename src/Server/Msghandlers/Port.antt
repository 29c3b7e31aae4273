-- ===== src/Server/Msghandlers/Port.antt =====
-- nport-server/src/server/msghandlers/port.rs: opening a port forwarding.
use nport.Prelude.{ℕ, not, ◌&&◌, Option, none, some, Result, ok, err, if◌then◌else◌, ltb}
use nport.Text.{Text, text_eq}
use nport.Text.Lowercase.{Lowercase}
use nport.Addr.Sockets.{Net}
use nport.Addr.{from_address, to_address, from_host_and_port}
use nport.Messages.{Address}
use nport.Messages.Client.{PortOpen}
use nport.Messages.Server.{
  port_opened, PortOpenError, in_use, port_not_allowed, host_not_allowed, port_open_error_raw,
}
use nport.Server.Hostnames.{Hostnames}
use nport.Server.Stats.{inc}
use nport.Server.State.{World}
use nport.Server.Env.{Env}
use nport.Server.Client.{Error, send, register_port}
use nport.Server.Forwarding.{normalized_client_subdomain}

abbrev pub count_port : World → World
count_port w =
    let stats = w.stats in record w { stats = record stats { tcp_ports = inc stats.tcp_ports } }

-- `port_server::server`, up to the task that it spawns: bind, count and answer the port.
unfoldable pub server : Env → World → ℕ → World × Option ℕ
server env w requested = elim (env.bind requested) [
  | none ↦ (w, none)
  | some port ↦ (count_port w, some port)
]

module _ (lower : Lowercase) (hostnames : Hostnames) where
  unfoldable pub check_host : Option Text → Result PortOpenError (Unit {0})
  check_host none = ok tt
  check_host (some hostname) =
      if not (text_eq (normalized_client_subdomain lower hostnames hostname) hostnames.tcp_hostname)
      then err host_not_allowed
      else ok tt

  unfoldable pub validate_address : Option Address → Result PortOpenError (Unit {0})
  validate_address none = ok tt
  validate_address (some remote_addr) =
      if ltb 0 remote_addr.port && ltb remote_addr.port 1024
      then err port_not_allowed
      else check_host remote_addr.host

  abbrev pub validate_open : PortOpen → Result PortOpenError (Unit {0})
  validate_open request = validate_address request.remote_address

  -- The body of `open` under its validation: the port that was opened, or the error.
  unfoldable pub open_port : Env → World → ℕ → PortOpen → World × Result PortOpenError ℕ
  open_port env w c request = elim (validate_open request) [
    | err error ↦ (w, err error)
    | ok _ ↦
        let (w', opened) = server env w (from_address request.remote_address).port in
        elim opened [ some port ↦ (register_port env w' c port, ok port) | none ↦ (w', err in_use) ]
  ]

abbrev pub port_or {ℓ} : {E : Type ℓ} → Result E ℕ → ℕ → ℕ
port_or (ok port) d = port
port_or (err e) d = d

abbrev pub error_code {ℓ} : {A : Type ℓ} → Result PortOpenError A → Option ℕ
error_code (ok _) = none
error_code (err e) = some (port_open_error_raw e)

module _ (lower : Lowercase) (net : Net) (hostnames : Hostnames) where
  unfoldable pub open_forwarding : Env → World → ℕ → PortOpen → World × Result Error (Unit {0})
  open_forwarding env w c request =
      let (w', result) = open_port lower hostnames env w c request in
      let port = port_or result (from_address request.remote_address).port in
      let remote_addr = from_host_and_port net hostnames.tcp_hostname port in
      send env w' c (
        port_opened (record {
          protocol = request.protocol;
          remote_address = some (to_address remote_addr);
          local_address = request.local_address;
          error = error_code result;
        }))
