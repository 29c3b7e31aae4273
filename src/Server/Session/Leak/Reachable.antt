-- ===== src/Server/Session/Leak/Reachable.antt =====
-- nport-server/src/server/registry.rs, deregister: the counter of host names in every run of the
-- server.
use nport.Prelude.{
  ℕ, ◌+◌, ◌<◌, ◌≡◌, refl, sym, ap, subst, ◌∙◌, true, Option, none, some, length, Result, ok, err,
  arith,
}
use nport.Prelude.Int.{pos}
use nport.Text.{Text}
use nport.Text.Lowercase.{Lowercase}
use nport.Addr.Sockets.{Net}
use nport.Server.State.{World, count}
use nport.Server.Env.{Env}
use nport.Server.Client.{Error, send}
use nport.Server.Registry.{register, has_http_hostname}
use nport.Server.Registry.Invariant.{IsRegistered}
use nport.Server.Msghandlers.Laws.{msg-Inv}
use nport.Server.Session.{
  Config, Server, connect, send_welcome, disconnect, after, joined, Step, connects, handles, ends,
  Reach, here, next,
}
use nport.Server.Session.Invariant.{ServerInv}
use nport.Server.Session.Reachable.{start, Reach-ServerInv}
use nport.Server.Session.Leak.{
  tally, IsCounted, IsCounted-same, deregister-IsCounted, tally-disconnect, tally-deregister,
  length-remove_all_less,
}
use nport.Server.Session.Leak.Handlers.{msg-IsCounted}

abbrev pub number_claimed : World → ℕ
number_claimed w = length w.registry.claimed_http_hostnames

module _ (lower : Lowercase) (net : Net) (config : Config) where
  tally-connect : (env : Env) (w : World) → tally (connect config env w).0 ≡ tally w
  unfolding connect send_welcome send register
  tally-connect env w = ground arith

  joined-IsCounted :
      (s : Server) (p : World × Option ℕ)
      → IsCounted (tally p.0)
      → IsCounted (tally (joined s p).world)
  joined-IsCounted s (w, none) v = v
  joined-IsCounted s (w, some c) v = v

  after-IsCounted :
      (s : Server) (c : ℕ) (p : World × Result Error (Unit {0}))
      → IsRegistered p.0 c
      → IsCounted (tally p.0)
      → IsCounted (tally (after s c p).world)
  after-IsCounted s c (w, ok _) r v = v
  after-IsCounted s c (w, err _) r v =
      IsCounted-same (tally-disconnect w c) (deregister-IsCounted w c r v)

  Step-IsCounted :
      {s t : Server}
      → ServerInv s
      → Step lower net config s t
      → IsCounted (tally s.world)
      → IsCounted (tally t.world)
  Step-IsCounted {s} i (connects env) v =
      joined-IsCounted s (connect config env s.world) (IsCounted-same (tally-connect env s.world) v)
  Step-IsCounted {s} i (handles env c m a) v =
      let r : IsRegistered s.world c = omega (arith, i.registered c) in
      let clients = (msg-Inv lower net config.hostnames env s.world c m i.inv r).1 in
      after-IsCounted s c _ (rw clients r)
        (msg-IsCounted lower config.hostnames env s.world c net m i.inv r v)
  Step-IsCounted {s} i (ends c a) v =
      IsCounted-same (tally-disconnect s.world c)
        (deregister-IsCounted s.world c (omega (arith, i.registered c)) v)

  pub Reach-IsCounted : {t : Server} → Reach lower net config start t → IsCounted (tally t.world)
  Reach-IsCounted here = record { distinct = tt; leaked = 0; shown = refl }
  Reach-IsCounted (next r st) =
      Step-IsCounted (Reach-ServerInv lower net config r) st (Reach-IsCounted r)

  -- In every state that the server can reach, the counter of HTTP host names shows the names that
  -- are claimed and `leaked` more. When a connection ends whose client holds a name, fewer names
  -- are claimed than before and the counter stays, so it shows too many from then on.
  pub hostnames_leak :
      {s : Server} (c : ℕ) (h : Text)
      → Reach lower net config start s
      → 0 < count c s.active
      → has_http_hostname s.world c h ≡ true
      → ((leaked : ℕ) × (s.world.stats.http_hostnames.count
            ≡ pos (number_claimed s.world + leaked)))
        × (number_claimed (disconnect s.world c) < number_claimed s.world)
        × ((disconnect s.world c).stats.http_hostnames ≡ s.world.stats.http_hostnames)
  unfolding has_http_hostname
  hostnames_leak {s} c h r a k =
      let i = Reach-ServerInv lower net config r in
      let v = Reach-IsCounted r in
      let q : IsRegistered s.world c = omega (arith, i.registered c) in
      let entry = tally-disconnect s.world c ∙ tally-deregister s.world c q in
      (
        (v.leaked, v.shown),
        subst (λ u. length u.0 < length s.world.registry.claimed_http_hostnames) (sym entry)
            (length-remove_all_less h _ _ v.distinct k (i.inv.held c h (q, k))),
        ap (λ u. u.1) entry,
      )
