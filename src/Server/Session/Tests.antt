-- ===== src/Server/Session/Tests.antt =====
-- A run of the server with two connections, and one that is not welcomed.
use nport.Prelude.{◌+◌, ◌<◌, ◌≡◌, refl, true, false, none, some, [], arith}
use nport.Text.{codes}
use nport.Text.Lowercase.{ascii_lowercase}
use nport.Addr.SmallNet.{small_net}
use nport.StringMap
use nport.Messages.Client.{PortReceive, port_receive}
use nport.Server.Msghandlers.{msg}
use nport.Server.Registry.Ownership.{view, leave}
use nport.Server.Session.Ports.{unknown_port_disconnects}
use nport.Server.State.{count}
use nport.Server.Env.{Env}
use nport.Server.Client.{send}
use nport.Server.Registry.{register}
use nport.Server.Registry.Invariant.{IsRegistered}
use nport.Server.Session.{
  Config, Server, connect, send_welcome, after, joined, connects, here, next,
}
use nport.Server.Session.Invariant.{ServerInv, Step-ServerInv}
use nport.Server.Session.Reachable.{start, start-ServerInv, Reach-ServerInv, rejected_stays}

abbrev config : Config
config = record {
  hostnames = record {
    domain = codes "nport.io";
    api = codes "api";
    tcp = codes "tcp";
    api_hostname = codes "api.nport.io";
    tcp_hostname = codes "tcp.nport.io";
    subdomain_blocklist = [];
  };
  send_welcome_message = true;
  welcome = codes "hello";
}

abbrev up : Env
up = record { link = true; is_open = λ c. true; generated = codes "a"; bind = λ p. none }

abbrev down : Env
down = record up { link = false }

abbrev first : Server
first = joined start (connect config up start.world)

Reach-ServerInv_example : ServerInv first
Reach-ServerInv_example = Reach-ServerInv ascii_lowercase small_net config (next here (connects up))

first-ServerInv : ServerInv first
first-ServerInv = Step-ServerInv ascii_lowercase small_net config (connects up) start-ServerInv

rejected : (connect config down first.world).1 ≡ none
unfolding connect send_welcome send register
rejected = refl

rejected_stays_example :
    IsRegistered (joined first (connect config down first.world)).world first.world.next
    × (count first.world.next (joined first (connect config down first.world)).active ≡ 0)
rejected_stays_example =
    rejected_stays ascii_lowercase small_net config first
      (joined first (connect config down first.world)) down first-ServerInv rejected here

first_active : 0 < count 0 first.active
unfolding connect send_welcome send register
first_active = omega arith

first_no_writer : StringMap.get (codes "u1") (first.world.client 0).port_writers ≡ none
unfolding connect send_welcome send register StringMap.get
first_no_writer = refl

abbrev late : PortReceive
late = record { uuid = codes "u1"; bytes = codes "SSH-2.0" }

unknown_port_disconnects_example :
    let t = after first 0 (
      msg ascii_lowercase small_net config.hostnames up first.world 0 (some (port_receive late))) in
    (count 0 t.active + 1 ≡ count 0 first.active) × (view t.world ≡ leave 0 (view first.world))
unknown_port_disconnects_example =
    unknown_port_disconnects ascii_lowercase small_net config up first 0 late first-ServerInv
      first_active first_no_writer
