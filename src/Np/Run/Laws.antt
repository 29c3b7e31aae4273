-- ===== src/Np/Run/Laws.antt =====
-- Giving up, the delays, and what a failure among the tunnels does.
use nport.Prelude.{
  ℕ, suc, ◌+◌, ◌*◌, ◌^◌, ◌%◌, ◌≤◌, ◌<◌, ◌≡◌, refl, ◌∙◌, Bool, Option, none, some, List, [], ◌∷◌,
  err, arith,
}
use nport.Text.{Text}
use nport.Np.Env.{Env}
use nport.Np.Error.{Error, tungstenite}
use nport.Np.Client.{Client, connect, disconnect, server_url}
use nport.Np.Run.{State, Tunnel, connect_retry_delay, connect_failure, round, unreachable}

-- The server cannot be reached at any URL.
abbrev pub IsDown : Env → Type 0
IsDown env = (url : Text) → (e : Text) × (env.connect_async url ≡ err e)

-- The state after a failure that is not the last.
abbrev pub failed : State → State
failed s = record {
  client = disconnect s.client;
  retries = s.retries + 1;
  slept = connect_retry_delay * (2 ^ (s.retries + 1) % 2 ^ 32) ∷ s.slept;
}

pub failure-retry : (s : State) → s.retries < 5 → connect_failure s ≡ some (failed s)
unfolding connect_failure
failure-retry s h = ground arith

failure-last : (s : State) → 5 ≤ s.retries → connect_failure s ≡ none
unfolding connect_failure
failure-last s h = ground arith

module _ (env : Env) (os server : Text) (secure : Bool) (tunnels : List Tunnel)
    (d : IsDown env) where
  abbrev attempts : ℕ → State → Option State
  attempts n s = unreachable env os server secure tunnels n s

  connect-down :
      (client : Client) → (e : Error) × (connect env os client server secure ≡ (client, err e))
  unfolding connect
  connect-down client =
      let (e, p) = d (server_url os client.version_info server secure) in
      (tungstenite e, ground (arith, p))

  attempts-retry : (n : ℕ) (s : State) → s.retries < 5 → attempts (suc n) s ≡ attempts n (failed s)
  unfolding unreachable round
  attempts-retry n s h = let (e, p) = connect-down s.client in ground (arith, p, failure-retry s h)

  attempts-last : (n : ℕ) (s : State) → 5 ≤ s.retries → attempts (suc n) s ≡ none
  unfolding unreachable round
  attempts-last n s h = let (e, p) = connect-down s.client in ground (arith, p, failure-last s h)

  attempts-five :
      (n : ℕ) (s : State)
      → s.retries ≡ 0
      → attempts (suc (suc (suc (suc (suc n))))) s
        ≡ attempts n (failed (failed (failed (failed (failed s)))))
  attempts-five n s z =
      attempts-retry _ s (omega (arith, z))
      ∙ attempts-retry _ (failed s) (omega (arith, z))
      ∙ attempts-retry _ (failed (failed s)) (omega (arith, z))
      ∙ attempts-retry _ (failed (failed (failed s))) (omega (arith, z))
      ∙ attempts-retry _ (failed (failed (failed (failed s)))) (omega (arith, z))

  -- While the server cannot be reached, a fresh np waits 2, 4, 8, 16 and 32 seconds after its
  -- attempts, with nothing kept of earlier connections, and the process ends after the sixth.
  pub gives_up :
      (client : Client)
      → let s : State = record { client = client; retries = 0; slept = [] } in
        (t : State) × (unreachable env os server secure tunnels 5 s ≡ some t)
        × (t.slept ≡ 32 ∷ 16 ∷ 8 ∷ 4 ∷ 2 ∷ [])
        × (t.client ≡ disconnect client)
        × (unreachable env os server secure tunnels 6 s ≡ none)
  unfolding unreachable disconnect
  gives_up client =
      let s : State = record { client = client; retries = 0; slept = [] } in
      (
        failed (failed (failed (failed (failed s)))),
        attempts-five 0 s refl,
        refl,
        refl,
        attempts-five 1 s refl
            ∙ attempts-last 0 (failed (failed (failed (failed (failed s))))) (omega arith),
      )
