-- ===== src/Server/Stats.antt =====
-- nport-server/src/server/stats.rs: the counters. `total` is the exported counter of increments,
-- where a meter is configured; `count` is the current value. The 64-bit wrap-around of `count` is
-- out of reach of one step per message and is left out.
use nport.Prelude.{ℕ, ◌+◌}
use nport.Prelude.Int.{ℤ, pos, succ_ℤ, pred_ℤ}

pub record CountedMetric : Type 0 where
  pub total : ℕ
  pub count : ℤ

abbrev pub zero_metric : CountedMetric
zero_metric = record { total = 0; count = pos 0 }

unfoldable pub inc : CountedMetric → CountedMetric
inc m = record { total = m.total + 1; count = succ_ℤ m.count }

unfoldable pub dec : CountedMetric → CountedMetric
dec m = record m { count = pred_ℤ m.count }

pub record Stats : Type 0 where
  pub http_requests_total : ℕ
  pub client_connections : CountedMetric
  pub http_hostnames : CountedMetric
  pub tcp_ports : CountedMetric
