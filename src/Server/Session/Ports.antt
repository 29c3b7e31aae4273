-- ===== src/Server/Session/Ports.antt =====
-- nport-server/src/server/msghandlers/port.rs and websockets.rs: data for a connection that the
-- server does not know, or no longer.
use nport.Prelude.{ℕ, ◌+◌, ◌<◌, ◌≡◌, ◌∙◌, none, some, err, arith, ==_refl}
use nport.Text.Lowercase.{Lowercase}
use nport.StringMap
use nport.Addr.Sockets.{Net}
use nport.Messages.Client.{PortReceive, port_receive}
use nport.Server.Env.{Env}
use nport.Server.State.{count}
use nport.Server.Client.{port_id_not_registered}
use nport.Server.Client
use nport.Server.Registry.Invariant.{IsRegistered}
use nport.Server.Registry.Ownership.{view, leave, deregister_refines}
use nport.Server.Msghandlers.{msg}
use nport.Server.Session.{Config, Server, after}
use nport.Server.Session.Invariant.{ServerInv, count-forget, disconnect-SameNames}
use nport.Server.Msghandlers.Opening.{view_same}

module _ (lower : Lowercase) (net : Net) (config : Config) (env : Env) (s : Server) (c : ℕ) where
  unknown_fails :
      (received : PortReceive)
      → StringMap.get received.uuid (s.world.client c).port_writers ≡ none
      → msg lower net config.hostnames env s.world c (some (port_receive received))
        ≡ (s.world, err (port_id_not_registered received.uuid))
  unfolding msg Client.port_receive Client.port_message
  unknown_fails received n = ground (arith, n)

  -- When a client sends bytes for a connection whose writer is not registered, as when the remote
  -- side has just closed it or has not yet been told that np is connected, the server drops the
  -- client with all its forwardings: the loop of the client ends and every host name that it owned
  -- is free, while the others keep their owners.
  pub unknown_port_disconnects :
      (received : PortReceive)
      → ServerInv s
      → 0 < count c s.active
      → StringMap.get received.uuid (s.world.client c).port_writers ≡ none
      → let t =
          after s c (msg lower net config.hostnames env s.world c (some (port_receive received))) in
        (count c t.active + 1 ≡ count c s.active) × (view t.world ≡ leave c (view s.world))
  unknown_port_disconnects received v a n =
      let registered : IsRegistered s.world c = omega (arith, v.registered c) in
      rw (unknown_fails received n) (
        ground (arith, count-forget c c s.active a, ==_refl c),
        view_same (disconnect-SameNames s.world c) ∙ deregister_refines s.world c v.inv registered,
      )
