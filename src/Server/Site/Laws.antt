-- ===== src/Server/Site/Laws.antt =====
-- What the page of counters shows, whatever the server has been through.
use nport.Prelude.{ℕ, ◌+◌, ◌<◌, ◌≡◌, refl, ap, true, Result, ok, err, length}
use nport.Prelude.Int.{pos}
use nport.Text.{Text, codes}
use nport.Text.Lowercase.{Lowercase}
use nport.Addr.Sockets.{Net}
use nport.Server.State.{count}
use nport.Server.Registry.{has_http_hostname}
use nport.Server.Session.{Config, Server, Reach, disconnect}
use nport.Server.Session.Reachable.{start, Reach-ServerInv}
use nport.Server.Session.Leak.Reachable.{number_claimed, Reach-IsCounted, hostnames_leak}
use nport.Server.Site.{
  StatsContext, of_stats, Tera, Page, error_response, render_response, stats, context_of,
}

-- A rendered template is the page, and an error of the library is the page for 500.
abbrev pub answered : Result Text Text → Page
answered (ok html) = record { code = 200; body = html }
answered (err e) = error_response

-- In every state that the server can reach, the page of counters is its template, rendered with the
-- number of the connections that are in their loop, and with the number of the claimed host names
-- and some more that nobody has. When a connection ends whose client holds a name, fewer names are
-- claimed than before, but the page shows as many as it did.
pub stats_page :
    (lower : Lowercase) (net : Net) (config : Config) (tera : Tera) {s : Server}
    → Reach lower net config start s
    → (c : StatsContext) × (stats tera s.world.stats
        ≡ answered (tera (codes "stats.html") (of_stats c)))
      × (c.client_count ≡ pos (length s.active))
      × ((extra : ℕ) × (c.http_hostname_count ≡ pos (number_claimed s.world + extra)))
      × ((d : ℕ) (h : Text)
          → 0 < count d s.active
          → has_http_hostname s.world d h ≡ true
          → (number_claimed (disconnect s.world d) < number_claimed s.world)
            × ((context_of tera (disconnect s.world d).stats).http_hostname_count
                ≡ c.http_hostname_count))
unfolding stats render_response
stats_page lower net config tera {s} r =
    let v = Reach-ServerInv lower net config r in
    let k = Reach-IsCounted lower net config r in
    (
      context_of tera s.world.stats,
      refl,
      v.counted,
      (k.leaked, k.shown),
      λ d h a p.
          let (counted, fewer, same) = hostnames_leak lower net config d h r a p in
          (fewer, ap (λ m. m.count) same),
    )
