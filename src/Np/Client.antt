-- ===== src/Np/Client.antt =====
-- np/src/client.rs and `start` of np/src/client/port.rs: the forwardings of np and its connection.
pub mod Laws
pub mod Port
pub mod Pipe
pub mod Lock
pub mod Listing
use nport.Prelude.{
  ℕ, Bool, true, false, Option, none, some, List, [], ◌∷◌, ◌++◌, Result, ok, err, ok_or, ◌>>=◌,
  ◌>>◌, if◌then◌else◌, map_err,
}
use nport.Text.{Text, codes}
use nport.StringMap
use nport.Addr.{Addr, from_address, to_address, to_string}
use nport.Addr.Origin.{port_origin_from_raw}
use nport.Messages.{PortProtocol, tcp, protocol_raw}
use nport.Messages.Client.{Message}
use nport.Messages.Server.{HttpOpened, HttpClosed, PortOpened, PortConnect, PortReceive, PortClose}
use nport.Messages.Server
use nport.Server.State.{PortMessage, bytes, close}
use nport.Np.Env.{Env, Frame, binary, other}
use nport.Np.Error.{
  Error, malformed_message, invalid_message_type, disconnected, decode, tungstenite, io,
  http_open_error, http_hostname_already_registered, http_hostname_not_registered, port_open_error,
  port_origin_already_registered, port_origin_not_registered, port_id_already_registered,
  port_id_not_registered,
}

pub record VersionInfo : Type 0 where
  pub pkg_version : Text
  pub git_ref : Text
  pub git_is_dirty : Bool

pub record Client : Type 0 where
  pub version_info : VersionInfo
  pub http_forwardings : List (Text × Addr)
  pub port_forwardings : List (Text × Addr)
  pub port_writers : List (Text × ℕ)
  -- What the connection has sent, the newest first.
  pub connection : Option (List Message)

-- `Client::new`
abbrev pub new : VersionInfo → Client
new version_info = record {
  version_info = version_info;
  http_forwardings = [];
  port_forwardings = [];
  port_writers = [];
  connection = none;
}

abbrev pub print_bool : Bool → Text
print_bool true = codes "true"
print_bool false = codes "false"

-- The URL that `connect` asks for; `os` is `std::env::consts::OS`.
unfoldable pub server_url : Text → VersionInfo → Text → Bool → Text
server_url os v server secure =
    (if secure then codes "wss" else codes "ws")
    ++ (codes "://"
        ++ (server
            ++ (codes "/v1/connect?v="
                ++ (v.pkg_version
                    ++ (codes "&ref="
                        ++ (v.git_ref
                            ++ (codes "&dirty="
                                ++ (print_bool v.git_is_dirty ++ (codes "&os=" ++ os)))))))))

-- Where the connection cannot be made, an older one stays.
unfoldable pub connect : Env → Text → Client → Text → Bool → Client × Result Error (Unit {0})
connect env os client server secure =
    elim (env.connect_async (server_url os client.version_info server secure)) [
      | err e ↦ (client, err (tungstenite e))
      | ok _ ↦ (record client { connection = some [] }, ok tt)
    ]

unfoldable pub disconnect : Client → Client
disconnect client = record client {
  connection = none;
  http_forwardings = [];
  port_forwardings = [];
  port_writers = [];
}

-- The result of putting an entry into a map where there is none: `Entry::Vacant`.
unfoldable pub insert_vacant {ℓ κ} :
    {V : Type ℓ} {E : Type κ}
    → Text
    → V
    → E
    → List (Text × V)
    → List (Text × V) × Result E (Unit {0})
insert_vacant key v taken m = elim (StringMap.get key m) [
  | none ↦ (StringMap.insert key v m, ok tt)
  | some old ↦ (m, err taken)
]

unfoldable pub send : Env → Client → Message → Client × Result Error (Unit {0})
send env client message = elim client.connection [
  | none ↦ (client, err disconnected)
  | some sent ↦ elim env.link [
    | ok _ ↦ (record client { connection = some (message ∷ sent) }, ok tt)
    | err e ↦ (client, err (tungstenite e))
  ]
]

-- The message in the frame that was received.
unfoldable pub read_frame : Env → Option (Result Text Frame) → Result Error Server.Message
read_frame env none = err disconnected
read_frame env (some (err e)) = err (tungstenite e)
read_frame env (some (ok other)) = err invalid_message_type
read_frame env (some (ok (binary payload))) =
    map_err decode (env.decode payload) >>= λ message. ok_or message malformed_message

unfoldable pub recv : Env → Client → Result Error Server.Message
recv env client = elim client.connection [
  | none ↦ err disconnected
  | some sent ↦ read_frame env env.received
]

module _ (client : Client) where
  unfoldable pub http_register : HttpOpened → Client × Result Error (Unit {0})
  http_register msg = elim msg.error [
    | some error ↦ (client, err (http_open_error msg.hostname error))
    | none ↦
        let (m, result) =
          insert_vacant msg.hostname (from_address msg.local_address)
            (http_hostname_already_registered msg.hostname) client.http_forwardings in
        (record client { http_forwardings = m }, result)
  ]

  unfoldable pub http_deregister : HttpClosed → Client × Result Error (Unit {0})
  http_deregister msg = elim (StringMap.get msg.hostname client.http_forwardings) [
    | some addr ↦ (
      record client { http_forwardings = StringMap.remove msg.hostname client.http_forwardings },
      ok tt,
    )
    | none ↦ (client, err (http_hostname_not_registered msg.hostname))
  ]

  unfoldable pub http_port : Text → Option Addr
  http_port hostname = StringMap.get hostname client.http_forwardings

  -- `none` is the panic of `port_origin_from_raw`.
  unfoldable pub port_register : PortOpened → Option (Client × Result Error (Unit {0}))
  port_register msg = elim msg.error [
    | some error ↦ some (client, err (port_open_error (from_address msg.remote_address) error))
    | none ↦ elim (port_origin_from_raw msg.protocol msg.remote_address) [
      | none ↦ none
      | some origin ↦
          let (m, result) =
            insert_vacant origin (from_address msg.local_address)
              (port_origin_already_registered origin) client.port_forwardings in
          some (record client { port_forwardings = m }, result)
    ]
  ]

  unfoldable pub port_writer_register : Text → ℕ → Client × Result Error (Unit {0})
  port_writer_register uuid sender =
      let (m, result) =
        insert_vacant uuid sender (port_id_already_registered uuid) client.port_writers in
      (record client { port_writers = m }, result)

  unfoldable pub port_writer_remove : Text → Client
  port_writer_remove uuid = record client {
    port_writers = StringMap.remove uuid client.port_writers;
  }

  -- The function that `port_connect` calls with the local address; `none` is a panic.
  unfoldable pub port_connect :
      PortConnect
      → (Text → Addr → Client × Result Error (Unit {0}))
      → Option (Client × Result Error (Unit {0}))
  port_connect msg f = elim (port_origin_from_raw msg.protocol msg.remote_address) [
    | none ↦ none
    | some origin ↦ elim (StringMap.get origin client.port_forwardings) [
      | none ↦ some (client, err (port_origin_not_registered origin))
      | some local_addr ↦ some (f msg.uuid local_addr)
    ]
  ]

module _ (env : Env) (client : Client) where
  unfoldable pub http_open : Text → Addr → Client × Result Error (Unit {0})
  http_open hostname local_addr = send env client (
      Message.http_open
        (record { hostname = some hostname; local_address = some (to_address local_addr) }))

  unfoldable pub port_open : PortProtocol → Addr → Addr → Client × Result Error (Unit {0})
  port_open protocol remote_addr local_addr = send env client (
      Message.port_open (record {
        protocol = protocol_raw protocol;
        remote_address = some (to_address remote_addr);
        local_address = some (to_address local_addr);
      }))

  unfoldable pub tcp_open : Addr → Addr → Client × Result Error (Unit {0})
  tcp_open remote_addr local_addr = port_open tcp remote_addr local_addr

  -- The message that goes into the channel of a port writer. `none` is that the channel is full and
  -- stays so: then `send` waits without end, with the lock.
  unfoldable pub port_message : Text → PortMessage → Option (Result Error (ℕ × PortMessage))
  port_message uuid msg = elim (StringMap.get uuid client.port_writers) [
    | none ↦ some (err (port_id_not_registered uuid))
    | some writer ↦
        if env.is_open writer
        then if env.has_room writer then some (ok (writer, msg)) else none
        else some (err (port_id_not_registered uuid))
  ]

  unfoldable pub port_receive : PortReceive → Option (Result Error (ℕ × PortMessage))
  port_receive msg = port_message msg.uuid (bytes msg.bytes)

  unfoldable pub port_close : PortClose → Option (Result Error (ℕ × PortMessage))
  port_close msg = port_message msg.uuid close

  -- `port::start`, up to the task that it spawns.
  unfoldable pub start : Text → Addr → Client × Result Error (Unit {0})
  start uuid addr = elim (env.tcp_connect (to_string addr)) [
    | err e ↦ (client, err (io e))
    | ok _ ↦ port_writer_register client uuid env.channel
  ]
