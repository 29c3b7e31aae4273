-- ===== src/Np/Tunnel/Outlived.antt =====
-- np/src/client/port.rs and lib.rs with nport-server/src/server/handlers/websockets.rs: the task of
-- a connection that goes on after np has lost its server and found it again.
use nport.Prelude.{
  ℕ, ◌+◌, ◌<◌, ◌≡◌, sym, subst, ap, true, false, none, some, List, [], ◌∷◌, ok, arith, ==_refl,
}
use nport.Text.{Text, is_empty}
use nport.Text.Lowercase.{Lowercase}
use nport.Addr.Sockets.{Net}
use nport.StringMap
use nport.StringMap.{get-nil}
use nport.Messages.Client.{Message, PortReceive, port_receive}
use nport.Server.State.{count}
use nport.Server.Env as ServerEnv
use nport.Server.Registry.Ownership.{view}
use nport.Server.Msghandlers.{msg}
use nport.Server.Session.{Config, Server, connect, joined, after, handles}
use nport.Server.Session.Invariant.{ServerInv, Step-ServerInv}
use nport.Server.Session.Ports.{unknown_port_disconnects}
use nport.Np.Env.{Env}
use nport.Np.Client.{Client, send}
use nport.Np.Client as Np
use nport.Np.Tunnel.{ask_http}
use nport.Addr.{Addr}
use nport.Np.Client.Port.{read, run}
use nport.Np.Run.Reconnect.{online}
use nport.Prelude.{Option, ◌∙◌}
use nport.Messages.Client.{http_open}
use nport.Server.Forwarding.{unwrap_or, subdomain_for_forwarding}
use nport.Server.Msghandlers.Http.{full_hostname}
use nport.Np.Tunnel.Reopened.{
  open-port_writers, back-active, back-fresh, back-ServerInv, opened_for, opened_for-ok,
  opened_for-view,
}

abbrev pub bytes_of : Text → Text → PortReceive
bytes_of uuid chunk = record { uuid = uuid; bytes = chunk }

sent-http_open :
    (env : Env) (client : Client) (sent : List Message) (hostname : Text) (local_addr : Addr)
    → client.connection ≡ some sent
    → env.link ≡ ok tt
    → (Np.http_open env client hostname local_addr).0.connection
      ≡ some (http_open (ask_http hostname local_addr) ∷ sent)
unfolding Np.http_open send
sent-http_open env client sent hostname local_addr o l = ground (arith, o, l)

task_sends :
    (uuid chunk : Text) (env : Env) (client : Client) (sent : List Message) (written : List Text)
    → is_empty chunk ≡ false
    → env.link ≡ ok tt
    → client.connection ≡ some sent
    → run uuid
        (record { env = env; alive = true; event = read chunk } ∷ [])
        (record { client = client; written = written; running = true })
      ≡ record {
        client = online client (port_receive (bytes_of uuid chunk) ∷ sent);
        written = written;
        running = true;
      }
unfolding run send
task_sends uuid chunk env client sent written e l c = ground (arith, e, l, c)

-- np has lost its server and found it again: the server has registered it as a new client, and np
-- has asked for a forwarding, which the server accepts and opens for it. A task of a connection that
-- was opened before is still running, and reads bytes from the local service. Then it goes on
-- running, and sends them over the new websocket; and on that message the server drops the new
-- client, and the name that it had just given to it is free.
pub outlived_task_disconnects :
    (lower : Lowercase) (net : Net) (config : Config) (server_env : ServerEnv.Env) (v : Server)
    (c : ℕ) (env : Env) (client : Client) (sent : List Message) (uuid chunk : Text)
    (written : List Text) (hostname : Text) (local_addr : Addr) (subdomain : Option Text)
    → ServerInv v
    → (connect config server_env v.world).1 ≡ some c
    → client.connection ≡ some sent
    → env.link ≡ ok tt
    → server_env.link ≡ true
    → is_empty chunk ≡ false
    → subdomain_for_forwarding lower config.hostnames (some hostname) ≡ ok subdomain
    → let u = joined v (connect config server_env v.world) in
      let name = full_hostname config.hostnames.domain (unwrap_or subdomain server_env.generated) in
      view u.world name ≡ none
      → let s = run uuid (record { env = env; alive = true; event = read chunk } ∷ []) (record {
        client = (Np.http_open env client hostname local_addr).0;
        written = written;
        running = true;
      }) in
        (asked m : Message) × (s.client.connection ≡ some (m ∷ asked ∷ sent))
        × (s.running ≡ true)
        × (let opened =
              after u c (msg lower net config.hostnames server_env u.world c (some asked)) in
            let t =
              after opened c (msg lower net config.hostnames server_env opened.world c (some m)) in
            (view opened.world name ≡ some c)
            × (count c t.active + 1 ≡ count c opened.active)
            × (view t.world name ≡ none))
outlived_task_disconnects lower net config server_env v c env client sent uuid chunk written
      hostname local_addr subdomain i j o l k e a free =
    let request = ask_http hostname local_addr in
    let np = (Np.http_open env client hostname local_addr).0 in
    let turn =
      task_sends uuid chunk env np (http_open request ∷ sent) written e l
        (sent-http_open env client sent hostname local_addr o l) in
    let s = opened_for lower net config server_env v c i j request in
    let same = opened_for-ok lower net config server_env v c i j request k in
    let held = opened_for-view lower net config server_env v c i j request subdomain k a free in
    let active : 0 < count c s.active =
      subst (λ s. 0 < count c s.active) (sym same)
        (back-active lower net config server_env v c i j) in
    let fresh : StringMap.get uuid (s.world.client c).port_writers ≡ none =
      subst (λ s. StringMap.get uuid (s.world.client c).port_writers ≡ none) (sym same)
        (rw
          (open-port_writers lower config.hostnames server_env
            (joined v (connect config server_env v.world)).world c request)
          (back-fresh lower net config server_env v c i j uuid)) in
    let kept : ServerInv s =
      Step-ServerInv lower net config
        (handles server_env c (some (http_open request))
          (back-active lower net config server_env v c i j))
        (back-ServerInv lower net config server_env v c i j) in
    let (left, freed) =
      unknown_port_disconnects lower net config server_env s c (bytes_of uuid chunk) kept active
        fresh in
    (
      http_open request,
      port_receive (bytes_of uuid chunk),
      ap (λ s. s.client.connection) turn,
      ap (λ s. s.running) turn,
      (
        held,
        left,
        ap
              (λ o.
                o (
                  full_hostname config.hostnames.domain (unwrap_or subdomain server_env.generated)))
              freed
            ∙ ground (arith, held, ==_refl c),
      ),
    )
