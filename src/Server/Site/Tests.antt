-- ===== src/Server/Site/Tests.antt =====
-- The page of counters, when a client has opened a forwarding.
use nport.Prelude.{ok, length, ◌+◌, ◌<◌, ◌≡◌, refl, ℕ, true, false, none, some, [], arith}
use nport.Prelude.Int.{pos}
use nport.Text.{Text, codes, text_eq}
use nport.Text.Lowercase.{ascii_lowercase}
use nport.Addr.SmallNet.{small_net}
use nport.StringSet
use nport.Messages.Client.{HttpOpen, http_open}
use nport.Server.State.{count}
use nport.Server.Env.{Env}
use nport.Server.Client.{send}
use nport.Server.Forwarding.{subdomain_for_forwarding}
use nport.Server.Msghandlers.{msg}
use nport.Server.Msghandlers.Http
use nport.Server.Registry.{register, claim_http_hostname, add_http_hostname, has_http_hostname}
use nport.Server.Session.{
  Config, Server, connect, send_welcome, disconnect, after, joined, connects, handles, here, next,
  Reach,
}
use nport.Server.Session.Reachable.{start}
use nport.Server.Session.Leak.Reachable.{number_claimed}
use nport.Server.Site.{StatsContext, Tera, of_stats, stats, context_of}
use nport.Server.Site.Laws.{answered, stats_page}

abbrev config : Config
config = record {
  hostnames = record {
    domain = codes "nport.io";
    api = codes "api";
    tcp = codes "tcp";
    api_hostname = codes "api.nport.io";
    tcp_hostname = codes "tcp.nport.io";
    subdomain_blocklist = [];
  };
  send_welcome_message = false;
  welcome = codes "";
}

abbrev env : Env
env = record { link = true; is_open = λ c. true; generated = codes "a"; bind = λ p. none }

abbrev first : Server
first = joined start (connect config env start.world)

abbrev request : HttpOpen
request = record { hostname = none; local_address = none }

abbrev opened : Server
opened =
    after first 0
      (msg ascii_lowercase small_net config.hostnames env first.world 0 (some (http_open request)))

first_active : 0 < count 0 first.active
unfolding connect send_welcome send register
first_active = omega arith

run : Reach ascii_lowercase small_net config start opened
run = next (next here (connects env)) (handles env 0 (some (http_open request)) first_active)

opened_active : 0 < count 0 opened.active
unfolding connect send_welcome send register msg Http.open_forwarding Http.answer_open
    Http.open_hostname subdomain_for_forwarding claim_http_hostname add_http_hostname
    StringSet.insert StringSet.contains
opened_active = omega arith

opened_holds : has_http_hostname opened.world 0 (codes "a.nport.io") ≡ true
unfolding connect send_welcome send register msg Http.open_forwarding Http.answer_open
    Http.open_hostname subdomain_for_forwarding claim_http_hostname add_http_hostname
    StringSet.insert StringSet.contains has_http_hostname text_eq
opened_holds = refl

abbrev tera : Tera
tera name context = ok name

stats_page_example :
    (c : StatsContext) × (stats tera opened.world.stats
      ≡ answered (tera (codes "stats.html") (of_stats c)))
    × (c.client_count ≡ pos (length opened.active))
    × ((extra : ℕ) × (c.http_hostname_count ≡ pos (number_claimed opened.world + extra)))
    × ((d : ℕ) (h : Text)
        → 0 < count d opened.active
        → has_http_hostname opened.world d h ≡ true
        → (number_claimed (disconnect opened.world d) < number_claimed opened.world)
          × ((context_of tera (disconnect opened.world d).stats).http_hostname_count
              ≡ c.http_hostname_count))
stats_page_example = stats_page ascii_lowercase small_net config tera run
