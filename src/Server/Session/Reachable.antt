-- ===== src/Server/Session/Reachable.antt =====
-- What holds of every server that runs from the empty state.
use nport.Prelude.{
  ℕ, ◌<◌, ◌≡◌, refl, sym, ap, ◌∙◌, inl, inr, none, List, [], Result, ok, err, arith,
}
use mathlib.Core.Bool.{false≢true}
use nport.Text.Lowercase.{Lowercase}
use nport.Addr.Sockets.{Net}
use nport.StringSet.{contains-nil}
use nport.Server.Stats.{zero_metric}
use nport.Server.State.{World, new_client, count}
use nport.Server.Env.{Env}
use nport.Server.Client.{Error}
use nport.Server.Registry.{get_by_http_hostname, first_with}
use nport.Server.Registry.Invariant.{Inv, IsRegistered}
use nport.Server.Registry.Effects.{count-deregister}
use nport.Server.Msghandlers.Laws.{msg-Inv}
use nport.Server.Session.{
  Config, Server, connect, disconnect, forget, after, joined, Step, connects, handles, ends, Reach,
  here, next,
}
use nport.Server.Session.Invariant.{
  ServerInv, Step-ServerInv, count-forget, joined_none, joined_some, connect_cases, connect_clients,
  disconnect-SameNames,
}

abbrev pub empty_world : World
empty_world = record {
  registry = record { claimed_http_hostnames = []; clients = [] };
  client = λ c. new_client;
  next = 0;
  stats = record {
    http_requests_total = 0;
    client_connections = zero_metric;
    http_hostnames = zero_metric;
    tcp_ports = zero_metric;
  };
  http_responses = [];
  connected_responses = [];
  port_messages = [];
}

abbrev pub start : Server
start = record { world = empty_world; active = [] }

pub empty-Inv : Inv empty_world
empty-Inv = record {
  distinct = λ c. omega arith;
  allocated = λ c r. absurd (omega arith);
  held = λ c h p. absurd (omega (arith, p.0));
  owned = λ h k. absurd (false≢true (sym (contains-nil h) ∙ k));
  unique = λ c d h p q. absurd (omega (arith, p.0));
}

pub start-ServerInv : ServerInv start
unfolding get_by_http_hostname first_with
start-ServerInv = record {
  inv = empty-Inv;
  registered = λ c. omega arith;
  owners = λ h c p. cc;
  counted = refl;
}

module _ (lower : Lowercase) (net : Net) (config : Config) where
  Reach-keeps : {s t : Server} → ServerInv s → Reach lower net config s t → ServerInv t
  Reach-keeps v here = v
  Reach-keeps v (next r st) = Step-ServerInv lower net config st (Reach-keeps v r)

  -- In every state that the server can reach, the registry is well formed, each connection that is
  -- in its loop is registered once, every name with an owner belongs to such a connection, so that
  -- one that has ended holds no name back, and the counter shows the number of those connections.
  pub Reach-ServerInv : {t : Server} → Reach lower net config start t → ServerInv t
  Reach-ServerInv r = Reach-keeps start-ServerInv r

  -- Registered, but in no loop: nobody will deregister it.
  abbrev pub IsStranded : Server → ℕ → Type 0
  IsStranded s c = IsRegistered s.world c × (count c s.active ≡ 0)

  leaves-IsStranded :
      (w : World) (active : List ℕ) (c d : ℕ)
      → IsRegistered w c
      → count c active ≡ 0
      → IsRegistered w d
      → 0 < count d active
      → IsStranded (record { world = disconnect w d; active = forget d active }) c
  leaves-IsStranded w active c d r n q a =
      let clients = ap (λ r. count c r.clients) (disconnect-SameNames w d).registry in
      (
        ground (arith, clients, count-deregister w d c q, count-forget d c active a),
        ground (arith, count-forget d c active a),
      )

  after-IsStranded :
      (s : Server) (c d : ℕ) (p : World × Result Error (Unit {0}))
      → IsRegistered p.0 c
      → count c s.active ≡ 0
      → IsRegistered p.0 d
      → 0 < count d s.active
      → IsStranded (after s d p) c
  after-IsStranded s c d (w, ok _) r n q a = (r, n)
  after-IsStranded s c d (w, err _) r n q a = leaves-IsStranded w s.active c d r n q a

  joined-IsStranded :
      (s : Server) (env : Env) (c : ℕ)
      → ServerInv s
      → IsStranded s c
      → IsStranded (joined s (connect config env s.world)) c
  joined-IsStranded s env c v (r, n) = elim (connect_cases config env s.world) [
    | inl (e, _) ↦
        rw (joined_none s (connect config env s.world) e)
          (ground (arith, connect_clients s v config env c), n)
    | inr (e, _) ↦
        rw (joined_some s (connect config env s.world) s.world.next e)
          (ground (arith, connect_clients s v config env c), ground (arith, v.inv.allocated c r))
  ]

  Step-IsStranded :
      {s t : Server} (c : ℕ)
      → Step lower net config s t
      → ServerInv s
      → IsStranded s c
      → IsStranded t c
  Step-IsStranded {s} c (connects env) v p = joined-IsStranded s env c v p
  Step-IsStranded {s} c (handles env d m a) v (r, n) =
      let q : IsRegistered s.world d = omega (arith, v.registered d) in
      let clients = (msg-Inv lower net config.hostnames env s.world d m v.inv q).1 in
      after-IsStranded s c d _ (rw clients r) n (rw clients q) a
  Step-IsStranded {s} c (ends d a) v (r, n) =
      leaves-IsStranded s.world s.active c d r n (omega (arith, v.registered d)) a

  Reach-IsStranded :
      {s t : Server} (c : ℕ)
      → ServerInv s
      → IsStranded s c
      → Reach lower net config s t
      → IsStranded t c
  Reach-IsStranded c v p here = p
  Reach-IsStranded c v p (next r st) =
      Step-IsStranded c st (Reach-keeps v r) (Reach-IsStranded c v p r)

  rejected-IsStranded :
      (s : Server) (env : Env)
      → ServerInv s
      → (connect config env s.world).1 ≡ none
      → IsStranded (joined s (connect config env s.world)) s.world.next
  rejected-IsStranded s env v e = rw (joined_none s (connect config env s.world) e) (
    ground (arith, connect_clients s v config env s.world.next),
    ground (arith, v.registered s.world.next, v.inv.allocated s.world.next),
  )

  -- A client whose welcome message could not be sent is never deregistered: in every later state it
  -- is still in the registry and in no loop.
  pub rejected_stays :
      (s t : Server) (env : Env)
      → ServerInv s
      → (connect config env s.world).1 ≡ none
      → Reach lower net config (joined s (connect config env s.world)) t
      → IsRegistered t.world s.world.next × (count s.world.next t.active ≡ 0)
  rejected_stays s t env v e r =
      Reach-IsStranded s.world.next (Step-ServerInv lower net config (connects env) v)
        (rejected-IsStranded s env v e) r
