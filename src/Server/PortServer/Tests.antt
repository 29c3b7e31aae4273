-- ===== src/Server/PortServer/Tests.antt =====
-- A listener whose client is gone, and one that is closed.
use nport.Prelude.{◌≡◌, refl, true, false, none, [], if◌then◌else◌}
use nport.Text.{codes}
use nport.Addr.SmallNet.{small_net}
use nport.Server.Stats.{dec}
use nport.Server.Env.{Env}
use nport.Server.Session.Reachable.{empty_world}
use nport.Server.PortServer.{
  Listener, accepting, broken, asked, ask, remote, Turns, accepts, here, then_turn,
}
use nport.Server.PortServer.Laws.{ports, is_closed, is_over, listener_count}

abbrev env : Env
env = record { link = true; is_open = λ c. true; generated = codes "a"; bind = λ p. none }

abbrev open_port : Listener
open_port = record { world = empty_world; phase = accepting; relays = [] }

abbrev orphan : Listener
orphan = asked open_port (codes "u1") (
    ask small_net env empty_world 0 false (codes "u1") 7
      (remote small_net 0 (codes "tcp.nport.io") 4000) (codes "10.0.0.9", 5555))

orphaned : Turns small_net 0 (codes "tcp.nport.io") 4000 open_port orphan
orphaned = then_turn here (accepts env false (codes "u1") 7 (codes "10.0.0.9", 5555) refl)

listener_count_example :
    (ports orphan ≡ (if is_closed orphan.phase then dec (ports open_port) else ports open_port))
    × (is_over orphan.phase ≡ true → orphan ≡ orphan)
    × (orphan.phase ≡ broken → ports orphan ≡ ports open_port)
listener_count_example =
    listener_count small_net 0 (codes "tcp.nport.io") 4000 open_port orphan orphan refl orphaned
      here

-- The listener of a client that is gone ends broken.
orphan_test : orphan.phase ≡ broken
unfolding ask
orphan_test = refl
