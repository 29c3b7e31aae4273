-- ===== src/Np/Tunnel.antt =====
-- np/src/client.rs with nport-server/src/server/msghandlers: opening a forwarding from np to the
-- server and back, over a websocket that delivers the messages.
pub mod Port
pub mod Reopened
pub mod Outlived
mod Tests
mod OutlivedTests
use nport.Prelude.{
  ℕ, ◌<◌, ◌≡◌, refl, ap, ◌∙◌, true, Option, none, some, List, [], ◌∷◌, Result, ok, err, arith,
  ==_refl, if◌then◌else◌,
}
use nport.Text.{Text, text_eq}
use nport.Text.Laws.{text_eq_refl}
use nport.Text.Lowercase.{Lowercase}
use nport.Addr.{Addr, from_address, to_address, from_host_and_port, from_socket_addr}
use nport.Addr.Origin.{port_origin, port_origin_from_raw}
use nport.Messages.{tcp, protocol_raw}
use nport.StringMap
use nport.StringMap.{get-insert}
use nport.Addr.RoundTrip.{from_address-to_address}
use nport.Addr.Sockets.{Net}
use nport.Messages.Client.{HttpOpen, PortOpen}
use nport.Messages.Client
use nport.Messages.Server.{
  HttpOpened, PortOpened, PortConnect, http_opened, port_opened, port_connect,
}
use nport.Messages.Server
use nport.Server.Hostnames.{Hostnames}
use nport.Server.State.{World}
use nport.Server.Registry.Invariant.{Inv, IsRegistered}
use nport.Server.Registry.Ownership.{view, is_free}
use nport.Server.Forwarding.{subdomain_for_forwarding, unwrap_or}
use nport.Server.Msghandlers.Http.{full_hostname, open_forwarding}
use nport.Server.Msghandlers.Port.{open_port}
use nport.Server.Client.{register_port, register_connect_request}
use nport.Server.Client as ServerClient
use nport.Server.Msghandlers.Opening.{
  opened, owners_after, answer_to, sent-send, open_forwarding_lem,
}
use nport.Server.Env as ServerEnv
use nport.Server.PortServer.{ask, remote}
use nport.Np.Env.{Env}
use nport.Np.Error.{Error}
use nport.Np.Client.{
  Client, send, http_open, http_port, http_register, port_register, insert_vacant,
}
use nport.Np.Client as Np
use nport.Np.Client.Laws.{register_vacant}
use nport.Np.Dispatch.{Handled, message, logged}
use nport.Np.Dispatch.Http.{Hyper}

-- What `http_open` puts on the wire.
abbrev pub ask_http : Text → Addr → HttpOpen
ask_http hostname local_addr = record {
  hostname = some hostname;
  local_address = some (to_address local_addr);
}

asked_same :
    (env : Env) (np : Client) (hostname : Text) (local_addr : Addr) (name : Text)
    → http_port (http_open env np hostname local_addr).0 name ≡ http_port np name
unfolding http_open send http_port
asked_same env np hostname local_addr name = ground arith

-- np, which is connected, asks the server, where it is registered, for a forwarding of a host name to a
-- local address, and the websocket takes the messages of both sides. Where the server accepts the
-- name, nobody owns it, and np has no forwarding of the name that the server makes of it, then after
-- the server's handler and np's handler of its answer the server forwards the name to this client,
-- and np sends requests for it to exactly the local address that was asked for.
pub http_open_end_to_end :
    (hyper : Hyper) (np_env : Env) (np : Client) (sent : List Client.Message) (env : ServerEnv.Env)
    (w : World) (c : ℕ) (lower : Lowercase) (hostnames : Hostnames) (hostname : Text)
    (local_addr : Addr) (subdomain : Option Text)
    → local_addr.port < 65536
    → np.connection ≡ some sent
    → np_env.link ≡ ok tt
    → env.link ≡ true
    → Inv w
    → IsRegistered w c
    → subdomain_for_forwarding lower hostnames (some hostname) ≡ ok subdomain
    → let name = full_hostname hostnames.domain (unwrap_or subdomain env.generated) in
      let request = ask_http hostname local_addr in
      let w' = (open_forwarding env lower hostnames w c request).0 in
      view w name ≡ none
      → http_port np name ≡ none
      → (answer : Server.Message) × (handled : Handled) × ((http_open np_env np hostname
            local_addr).0.connection
          ≡ some (Client.http_open request ∷ sent))
        × ((w'.client c).sent ≡ answer ∷ (w.client c).sent)
        × (message hyper np_env (http_open np_env np hostname local_addr).0 answer ≡ some handled)
        × (view w' name ≡ some c)
        × (http_port handled.client name ≡ some local_addr)
unfolding message http_open send
http_open_end_to_end hyper np_env np sent env w c lower hostnames hostname local_addr subdomain p k
      l s v r e free new =
    let name = full_hostname hostnames.domain (unwrap_or subdomain env.generated) in
    let request = ask_http hostname local_addr in
    let asked = (http_open np_env np hostname local_addr).0 in
    let (owners, answered) = open_forwarding_lem env w c v r lower hostnames request in
    let yes : HttpOpened = record {
      hostname = name;
      local_address = request.local_address;
      error = none;
    } in
    let registered =
      (register_vacant asked yes refl (asked_same np_env np hostname local_addr name ∙ new)).1
        name in
    (
      http_opened yes,
      logged (http_register asked yes),
      ground (arith, k, l),
      answered s ∙ rw (e, free) refl,
      refl,
      ap (λ o. o name) owners ∙ rw (e, free, text_eq_refl name) refl,
      registered ∙ rw (text_eq_refl name) (ap some (from_address-to_address local_addr p)),
    )
