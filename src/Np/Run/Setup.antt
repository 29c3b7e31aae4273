-- ===== src/Np/Run/Setup.antt =====
-- np/src/lib.rs: what happens when the websocket fails while the tunnels are set up.
use nport.Prelude.{
  ◌+◌, ◌≤◌, ◌<◌, ◌≡◌, refl, Bool, true, none, some, List, [], ◌∷◌, ok, err, arith, length,
  Option-cases, inl, inr,
}
use nport.Text.{Text}
use nport.Np.Env.{Env}
use nport.Np.Error.{Error, disconnected, tungstenite}
use nport.Np.Client.{
  Client, connect, disconnect, send, server_url, http_open, tcp_open, port_open, recv,
}
use nport.Np.Run.Laws.{failed, failure-retry}
use nport.Np.Run.{State, Tunnel, connect_failure, open_tunnel, open_tunnels, round}

module _ (env : Env) (message : Text) (l : env.link ≡ err message) where
  open_tunnel-fails :
      (client : Client) (tunnel : Tunnel)
      → (e : Error) × (open_tunnel env client tunnel ≡ (client, err e))
  unfolding open_tunnel http_open tcp_open port_open send
  open_tunnel-fails client tunnel = elim (Option-cases client.connection) [
    | inl n ↦ (disconnected, ground (arith, n))
    | inr (sent, p) ↦ (tungstenite message, ground (arith, p, l))
  ]

  -- The state after a failure that is not the last.
  retried :
      (s : State)
      → s.retries < 5
      → (t : State) × (connect_failure s ≡ some t)
        × (t.retries ≡ s.retries + 1)
        × (t.client.connection ≡ none)
        × (length t.slept ≡ length s.slept + 1)
  unfolding disconnect
  retried s h = (failed s, failure-retry s h, refl, refl, omega arith)

  open_tunnels-fails :
      (tunnels : List Tunnel) (s : State)
      → s.retries + length tunnels ≤ 5
      → (t : State) × (open_tunnels env s tunnels ≡ some t)
        × (t.retries ≡ s.retries + length tunnels)
        × (length t.slept ≡ length s.slept + length tunnels)
        × ((s.client.connection ≡ none) → t.client.connection ≡ none)
        × (0 < length tunnels → t.client.connection ≡ none)
  unfolding open_tunnels
  open_tunnels-fails [] s h =
      (s, refl, omega arith, omega arith, λ n. n, λ n. absurd (omega (arith, n)))
  open_tunnels-fails (tunnel ∷ tunnels) s h =
      let (e, f) = open_tunnel-fails s.client tunnel in
      let (u, g, r, c, k) = retried s (omega (arith, h)) in
      let (t, o, q, m, keeps, drops) = open_tunnels-fails tunnels u (omega (arith, h, r)) in
      (
        t,
        ground (arith, f, g, o),
        omega (arith, r, q),
        omega (arith, m, k),
        λ n. keeps c,
        λ n. keeps c,
      )

  -- np reaches the server, but the websocket then takes no message. With one to five tunnels the
  -- delays of the failures are slept, one for each tunnel, and np goes on to receive with its
  -- counter of retries at zero and without a connection, so receiving fails at once. The counter
  -- never grows from one round to the next, and np does not give up, however often this happens.
  pub setup_failure_forgotten :
      (os server : Text) (secure : Bool) (tunnels : List Tunnel) (s : State)
      → env.connect_async (server_url os s.client.version_info server secure) ≡ ok tt
      → s.retries ≡ 0
      → 0 < length tunnels
      → length tunnels ≤ 5
      → (t : State) × (round env os server secure tunnels s ≡ some (t, true))
        × (t.retries ≡ 0)
        × (length t.slept ≡ length s.slept + length tunnels)
        × (recv env t.client ≡ err disconnected)
  unfolding round connect recv
  setup_failure_forgotten os server secure tunnels s c z p b =
      let online : State = record s { client = record s.client { connection = some [] } } in
      let (t, o, q, m, keeps, drops) = open_tunnels-fails tunnels online (omega (arith, z, b)) in
      (record t { retries = 0 }, ground (arith, c, o), refl, m, ground (arith, drops p))
