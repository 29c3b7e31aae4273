-- ===== src/Server/PortServer/Laws.antt =====
-- nport-server/src/server/port_server.rs: what the loop of a listener does to the counter of ports.
use nport.Prelude.{
  ℕ, ◌≡◌, refl, sym, ap, ◌∙◌, Bool, true, false, Option, none, some, arith, if◌then◌else◌,
}
use mathlib.Core.Bool.{true≢false}
use nport.Text.{Text}
use nport.Addr.Sockets.{Net}
use nport.Addr.{Addr}
use nport.Messages.Client.{PortConnected}
use nport.Server.Stats.{CountedMetric, dec}
use nport.Server.State.{World}
use nport.Server.Env.{Env}
use nport.Server.Client.{send, register_connect_request, port_writer_register}
use nport.Server.PortServer.{
  ControlFlow, ask, answered, Phase, accepting, closed, broken, Listener, phase_of, continue_flow,
  break_flow, remote, Turn, accepts, goes_on, fails, closes, Turns, here, then_turn,
}

abbrev pub ports : Listener → CountedMetric
ports s = s.world.stats.tcp_ports

abbrev pub is_closed : Phase → Bool
is_closed closed = true
is_closed _ = false

-- No turn starts in these phases.
abbrev pub is_over : Phase → Bool
is_over closed = true
is_over broken = true
is_over _ = false

asks_open : (uuid : Text) (flow : Option ControlFlow) → is_closed (phase_of uuid flow) ≡ false
asks_open uuid none = refl
asks_open uuid (some continue_flow) = refl
asks_open uuid (some break_flow) = refl

module _ (net : Net) (c : ℕ) (hostname : Text) (port : ℕ) where
  ports-ask :
      (env : Env) (w : World) (alive : Bool) (uuid : Text) (channel : ℕ) (remote_addr : Addr)
      (from : Text × ℕ)
      → (ask net env w c alive uuid channel remote_addr from).0.stats ≡ w.stats
  unfolding ask send register_connect_request
  ports-ask env w alive uuid channel remote_addr from = ground arith

  ports-answered :
      (env : Env) (w : World) (uuid : Text) (writer : ℕ) (response : Option PortConnected)
      → (answered net env w c uuid writer response).0.stats ≡ w.stats
  unfolding answered port_writer_register
  ports-answered env w uuid writer response = ground arith

  ports-Turn :
      {s t : Listener}
      → Turn net c hostname port s t
      → (is_over s.phase ≡ false)
        × (ports t ≡ (if is_closed t.phase then dec (ports s) else ports s))
  ports-Turn {s} (accepts env alive uuid channel from p) = (
    rw p refl,
    rw
        (asks_open uuid
          (ask net env s.world c alive uuid channel (remote net c hostname port) from).1)
        (ap (λ stats. stats.tcp_ports)
          (ports-ask env s.world alive uuid channel (remote net c hostname port) from)),
  )
  ports-Turn {s} (goes_on env uuid writer response p) =
      (rw p refl, ap (λ stats. stats.tcp_ports) (ports-answered env s.world uuid writer response))
  ports-Turn (fails p) = (rw p refl, rw p refl)
  ports-Turn (closes p) = (rw p refl, refl)

  ports-Turns :
      {s t : Listener}
      → s.phase ≡ accepting
      → Turns net c hostname port s t
      → ports t ≡ (if is_closed t.phase then dec (ports s) else ports s)
  ports-Turns p here = rw p refl
  ports-Turns p (then_turn r turn) =
      let (open_still, e) = ports-Turn turn in ground (arith, e, ports-Turns p r, open_still)

  over_stays : {s t : Listener} → is_over s.phase ≡ true → Turns net c hostname port s t → t ≡ s
  over_stays o here = refl
  over_stays o (then_turn r turn) =
      let before = ap (λ s. is_over s.phase) (over_stays o r) ∙ o in
      absurd (true≢false (sym before ∙ (ports-Turn turn).0))

  -- From the state in which it accepts connections, a listener takes its port out of the counter
  -- exactly when it ends because the port was closed. Where it ends because the message about a
  -- connection could not be sent, or the client is gone, the port stays counted, and no later turn
  -- of this listener changes that.
  pub listener_count :
      (s t u : Listener)
      → s.phase ≡ accepting
      → Turns net c hostname port s t
      → Turns net c hostname port t u
      → (ports t ≡ (if is_closed t.phase then dec (ports s) else ports s))
        × (is_over t.phase ≡ true → u ≡ t)
        × (t.phase ≡ broken → ports u ≡ ports s)
  listener_count s t u p r later = (
    ports-Turns p r,
    λ o. over_stays o later,
    λ b. ap ports (over_stays (rw b refl) later) ∙ rw b at (ports-Turns p r),
  )
