-- ===== src/Np/Run/Reconnect.antt =====
-- np/src/lib.rs and client.rs: what np does and keeps when the connection is lost and made again.
use nport.Prelude.{
  ◌≡◌, refl, Bool, true, none, some, List, [], ◌∷◌, ok, err, arith, rev_append, map,
}
use nport.Text.{Text}
use nport.Addr.{Addr, to_address}
use nport.Messages.{tcp, protocol_raw}
use nport.Messages.Client.{Message, http_open, port_open}
use nport.Messages.Server.{HttpOpened}
use nport.Np.Env.{Env}
use nport.Np.Error.{Error, http_hostname_already_registered}
use nport.Np.Client.{
  Client, connect, send, server_url, recv, insert_vacant, http_register, http_port,
}
use nport.Np.Client
use nport.Np.Dispatch.Http.{Hyper}
use nport.Np.Run.{State, Tunnel, http, tcp, or_empty, or_default, round, open_tunnel, open_tunnels}
use nport.Np.Run.Read.{read, reading}

-- What a tunnel asks of the server.
abbrev pub request_of : Tunnel → Message
request_of (http hostname local_addr) =
    http_open
      (record { hostname = some (or_empty hostname); local_address = some (to_address local_addr) })
request_of (tcp remote_addr local_addr) = port_open (record {
  protocol = protocol_raw tcp;
  remote_address = some (to_address (or_default remote_addr));
  local_address = some (to_address local_addr);
})

abbrev pub online : Client → List Message → Client
online client sent = record client { connection = some sent }

module _ (env : Env) (l : env.link ≡ ok tt) where
  open_tunnel-sends :
      (client : Client) (sent : List Message) (tunnel : Tunnel)
      → open_tunnel env (online client sent) tunnel
        ≡ (online client (request_of tunnel ∷ sent), ok tt)
  unfolding open_tunnel Client.http_open Client.tcp_open Client.port_open send
  open_tunnel-sends client sent (http hostname local_addr) = ground (arith, l)
  open_tunnel-sends client sent (tcp remote_addr local_addr) = ground (arith, l)

  open_tunnels-sends :
      (s : State) (tunnels : List Tunnel) (sent : List Message)
      → open_tunnels env (record s { client = online s.client sent }) tunnels
        ≡ some (record s { client = online s.client (rev_append (map request_of tunnels) sent) })
  unfolding open_tunnels
  open_tunnels-sends s [] sent = refl
  open_tunnels-sends s (tunnel ∷ tunnels) sent =
      let rest = open_tunnels-sends s tunnels (request_of tunnel ∷ sent) in
      ground (arith, open_tunnel-sends s.client sent tunnel, rest)

  pub round-connects :
      (os server : Text) (secure : Bool) (tunnels : List Tunnel) (s : State)
      → env.connect_async (server_url os s.client.version_info server secure) ≡ ok tt
      → round env os server secure tunnels s
        ≡ some (
          record s {
            client = online s.client (rev_append (map request_of tunnels) []);
            retries = 0;
          },
          true,
        )
  unfolding round connect
  round-connects os server secure tunnels s c = ground (arith, c, open_tunnels-sends s tunnels [])

register-again :
    (client : Client) (opened : HttpOpened) (addr : Addr)
    → opened.error ≡ none
    → http_port client opened.hostname ≡ some addr
    → http_register client opened ≡ (client, err (http_hostname_already_registered opened.hostname))
unfolding http_register insert_vacant http_port
register-again client opened addr n e = ground (arith, n, e)

-- Receiving fails while np is connected, and the server is there again. Then np asks it for exactly
-- its tunnels, in their order, and has all the forwardings and the writers of the lost connection
-- still: for a name among them the answer of the server is refused as registered already, and
-- requests keep going to the old address.
pub reconnect_keeps :
    (hyper : Hyper) (lost env : Env) (e : Error) (os server : Text) (secure : Bool)
    (tunnels : List Tunnel) (s : State)
    → recv lost s.client ≡ err e
    → env.connect_async (server_url os s.client.version_info server secure) ≡ ok tt
    → env.link ≡ ok tt
    → (t : State) × (read hyper (lost ∷ []) (reading s.client)
        ≡ some (record (reading s.client) { failed = true }))
      × (round env os server secure tunnels s ≡ some (t, true))
      × (t.client.connection ≡ some (rev_append (map request_of tunnels) []))
      × (t.client.port_forwardings ≡ s.client.port_forwardings)
      × (t.client.port_writers ≡ s.client.port_writers)
      × ((opened : HttpOpened) (addr : Addr)
          → opened.error ≡ none
          → http_port s.client opened.hostname ≡ some addr
          → (http_register t.client opened
              ≡ (t.client, err (http_hostname_already_registered opened.hostname)))
            × (http_port t.client opened.hostname ≡ some addr))
unfolding read http_port
reconnect_keeps hyper lost env e os server secure tunnels s f c l = (
  _,
  rw (read, f) refl,
  round-connects env l os server secure tunnels s c,
  refl,
  refl,
  refl,
  λ opened addr n k. (register-again _ opened addr n k, k),
)
