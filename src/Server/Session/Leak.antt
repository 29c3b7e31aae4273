-- ===== src/Server/Session/Leak.antt =====
-- nport-server/src/server/stats.rs and registry.rs: the counter of HTTP host names, which closing a
-- forwarding decrements and the end of a connection does not.
pub mod Handlers
pub mod Reachable
use nport.Prelude.{
  ℕ, suc, ◌+◌, ◌-◌, ◌≤◌, ◌<◌, ◌≡◌, refl, sym, ap, subst, ◌∙◌, Bool, true, false, not, ◌&&◌, Option,
  none, some, List, [], ◌∷◌, length, Result, ok, err, arith, if◌then◌else◌, Bool-cases,
  Option-cases, Result-cases, inl, inr,
}
use mathlib.Core.Bool.{false≢true}
use nport.Prelude.Int.{pos, succ_ℤ, pred_ℤ}
use nport.Text.{Text, text_eq}
use nport.Text.Laws.{text_eq_iff}
use nport.Text.Lowercase.{Lowercase}
use nport.StringSet
use nport.StringSet.{Distinct, Distinct-insert, length-insert, Distinct-remove, length-remove}
use nport.Addr.Sockets.{Net}
use nport.Messages.Client.{
  Message, HttpOpen, HttpClose, HttpResponse, PortConnected, PortOpen, http_open, http_close,
  http_response, port_open, port_connected, port_receive, port_close,
}
use nport.Messages.Server
use nport.Server.Hostnames.{Hostnames}
use nport.Server.Stats.{CountedMetric, inc, dec}
use nport.Server.State.{World, PortMessage, bytes, close, count}
use nport.Server.Env.{Env}
use nport.Server.Client.{
  Error, send, send_http_response, send_connected_response, register_port, port_message,
}
use nport.Server.Client
use nport.Server.Registry.{
  remove_all, deregister, register, claim_http_hostname, release_http_hostname, add_http_hostname,
  remove_http_hostname, has_http_hostname, position,
}
use nport.Server.Registry.Invariant.{Inv, Holds, IsRegistered, position-none}
use nport.Server.Registry.Effects.{claimed, contains-remove_all, claim_result, release_result}
use nport.Server.Forwarding.{subdomain_for_forwarding, ValidationError}
use nport.Server.Msghandlers.Http.{
  open_hostname, answer_open, open_forwarding, close_forwarding, count_hostname, uncount_hostname,
}
use nport.Server.Msghandlers.Port.{open_port, server}
use nport.Server.Msghandlers.Port
use nport.Server.Msghandlers.Http
use nport.Server.Msghandlers.{msg}
use nport.Server.Msghandlers.Laws.{msg-Inv}
use nport.Server.Session.{
  Config, Server, connect, send_welcome, disconnect, after, joined, Step, connects, handles, ends,
  Reach, here, next,
}
use nport.Server.Session.Invariant.{ServerInv}
use nport.Server.Session.Reachable.{start, Reach-ServerInv}

-- The names that are claimed, with the counter.
abbrev pub tally : World → List Text × CountedMetric
tally w = (w.registry.claimed_http_hostnames, w.stats.http_hostnames)

-- The counter shows the claimed names and `leaked` more.
pub record IsCounted (t : List Text × CountedMetric) : Type 0 where
  pub distinct : Distinct t.0
  pub leaked : ℕ
  pub shown : t.1.count ≡ pos (length t.0 + leaked)

pub IsCounted-same : {t u : List Text × CountedMetric} → u ≡ t → IsCounted t → IsCounted u
IsCounted-same e v = subst IsCounted (sym e) v

module _ (w : World) (c : ℕ) where
  tally-claim :
      (h : Text)
      → tally (claim_http_hostname w c h).0
        ≡ ((StringSet.insert h w.registry.claimed_http_hostnames).0, w.stats.http_hostnames)
  unfolding claim_http_hostname add_http_hostname
  tally-claim h = ground arith

  pub claim-IsCounted :
      (h : Text)
      → IsCounted (tally w)
      → claimed w h ≡ false
      → IsCounted (tally (count_hostname (claim_http_hostname w c h).0))
  unfolding inc
  claim-IsCounted h v e =
      let names = w.registry.claimed_http_hostnames in
      let entry = tally-claim h in
      IsCounted-same (ap (λ t. (t.0, inc t.1)) entry) (record {
        distinct = Distinct-insert h names v.distinct;
        leaked = v.leaked;
        shown = ground (arith, v.shown, length-insert h names);
      })

  pub refused-IsCounted :
      (h : Text)
      → IsCounted (tally w)
      → claimed w h ≡ true
      → IsCounted (tally (claim_http_hostname w c h).0)
  refused-IsCounted h v e =
      let entry = tally-claim h in
      IsCounted-same entry (rw (StringSet.insert_present h w.registry.claimed_http_hostnames e) v)

  tally-release :
      (h : Text)
      → tally (release_http_hostname w c h).0 ≡ (
        (if has_http_hostname w c h
            then (StringSet.remove h w.registry.claimed_http_hostnames).0
            else w.registry.claimed_http_hostnames),
        w.stats.http_hostnames,
      )
  unfolding release_http_hostname remove_http_hostname has_http_hostname
  tally-release h = ground (arith, StringSet.remove_found h (w.client c).hostnames)

  pub kept-IsCounted :
      (h : Text)
      → IsCounted (tally w)
      → has_http_hostname w c h ≡ false
      → IsCounted (tally (release_http_hostname w c h).0)
  kept-IsCounted h v e = IsCounted-same (tally-release h) (rw e v)

  pub release-IsCounted :
      (h : Text)
      → IsCounted (tally w)
      → claimed w h ≡ true
      → has_http_hostname w c h ≡ true
      → IsCounted (tally (uncount_hostname (release_http_hostname w c h).0))
  unfolding dec
  release-IsCounted h v k e =
      let names = w.registry.claimed_http_hostnames in
      let entry = tally-release h in
      IsCounted-same (ap (λ t. (t.0, dec t.1)) entry) (
        rw e (record {
          distinct = Distinct-remove h names v.distinct;
          leaked = v.leaked;
          shown = ground (arith, v.shown, length-remove h names v.distinct);
        }))

-- Giving names back takes them out of the registry only.
Distinct-remove_all : (names cl : List Text) → Distinct cl → Distinct (remove_all names cl)
Distinct-remove_all [] cl d = d
Distinct-remove_all (h ∷ names) cl d = Distinct-remove_all names _ (Distinct-remove h cl d)

length-remove_all : (names cl : List Text) → Distinct cl → length (remove_all names cl) ≤ length cl
length-remove_all [] cl d = omega arith
length-remove_all (h ∷ names) cl d = ground (
  arith,
  length-remove_all names (StringSet.remove h cl).0 (Distinct-remove h cl d),
  length-remove h cl d,
)

-- Fewer are left where one of the names was there.
pub length-remove_all_less :
    (h : Text) (names cl : List Text)
    → Distinct cl
    → StringSet.contains h names ≡ true
    → StringSet.contains h cl ≡ true
    → length (remove_all names cl) < length cl
length-remove_all_less h [] cl d m k = absurd (false≢true (sym (StringSet.contains-nil h) ∙ m))
length-remove_all_less h (x ∷ names) cl d m k = elim (Bool-cases (text_eq x h)) [
  | inl e ↦
      let same = (text_eq_iff x h).0 e in
      let one : StringSet.contains x cl ≡ true = rw same k in
      ground (
        arith,
        length-remove_all names (StringSet.remove x cl).0 (Distinct-remove x cl d),
        length-remove x cl d,
        one,
      )
  | inr e ↦ ground (
    arith,
    length-remove_all_less h names (StringSet.remove x cl).0 (Distinct-remove x cl d)
        (ground (arith, e, m, StringSet.contains-cons h x names))
        (ground (arith, e, k, StringSet.contains-remove h x cl)),
    length-remove x cl d,
  )
]

pub tally-deregister :
    (w : World) (c : ℕ)
    → IsRegistered w c
    → tally (deregister w c).0 ≡ (
      remove_all (w.client c).hostnames w.registry.claimed_http_hostnames,
      w.stats.http_hostnames,
    )
unfolding deregister
tally-deregister w c r = elim (Option-cases (position c w.registry.clients)) [
  | inl e ↦ absurd (omega (arith, position-none c w.registry.clients e))
  | inr (i, e) ↦ rw (e, deregister) refl
]

pub deregister-IsCounted :
    (w : World) (c : ℕ)
    → IsRegistered w c
    → IsCounted (tally w)
    → IsCounted (tally (deregister w c).0)
deregister-IsCounted w c r v =
    let cl = w.registry.claimed_http_hostnames in
    let names = (w.client c).hostnames in
    let fewer = length-remove_all names cl v.distinct in
    IsCounted-same (tally-deregister w c r) (record {
      distinct = Distinct-remove_all names cl v.distinct;
      leaked = (length cl - length (remove_all names cl)) + v.leaked;
      shown = v.shown ∙ ap pos (omega (arith, fewer));
    })

pub tally-disconnect : (w : World) (c : ℕ) → tally (disconnect w c) ≡ tally (deregister w c).0
unfolding disconnect
tally-disconnect w c = refl
