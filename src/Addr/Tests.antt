-- ===== src/Addr/Tests.antt =====
-- Tests and instances for addresses.
use nport.Prelude.{◌↔◌, ◌≡◌, refl, inr, none, some, arith, true, false}
use nport.Text.{codes, text_eq, split}
use nport.Text.Decimal.{print, parse_u16, read_digits}
use nport.Addr.{
  Addr, from_port, from_host_and_port, to_string, from_str, try_parse_socket_addr,
  try_parse_hostname, from_socket_addr,
}
use nport.Addr.SmallNet.{small_net, read_parts}
use nport.Addr.RoundTrip.{IsHost, from_str-to_string}
use nport.Addr.Serde.{
  Value, float, number, nan, deserialize, IsRead, deserialize_iff, visit_i64, visit_f64, f64_as_i64,
}

abbrev named : Addr
named = record { host = some (codes "example.com"); port = 4567 }

named-IsHost : IsHost small_net named.host
unfolding text_eq
named-IsHost =
    (record { some_text = refl; not_localhost = refl; not_loopback = refl }, inr (refl, refl))

addr_tests :
    (to_string named ≡ codes "example.com:4567")
    × (from_str small_net (codes "localhost:9000") ≡ some (from_port 9000))
    × (from_str small_net (codes "127.0.0.1:9000") ≡ some (from_port 9000))
    × (from_str small_net (codes ":3000") ≡ some (from_port 3000))
    × (from_str small_net (codes "a:b:1") ≡ none)
    × (from_str small_net (codes "a:65536") ≡ none)
unfolding to_string from_str try_parse_socket_addr try_parse_hostname from_socket_addr
    from_host_and_port read_parts split text_eq print parse_u16 read_digits
addr_tests = (refl, refl, refl, refl, refl, refl)

from_str-to_string_example : from_str small_net (to_string named) ≡ some named
from_str-to_string_example = from_str-to_string small_net named (omega arith) named-IsHost

-- A port that is written as the float 8080.5.
abbrev written : Value
written = float (number false 8080 true)

deserialize_iff_example :
    (deserialize small_net written ≡ some (from_port 8080))
    ↔ IsRead small_net written (from_port 8080)
deserialize_iff_example = deserialize_iff small_net written (from_port 8080) tt

-- A float between -1 and 0, and one that is no number, are read as port 0.
float_tests :
    (deserialize small_net (float (number true 0 true)) ≡ some (from_port 0))
    × (deserialize small_net (float nan) ≡ some (from_port 0))
    × (deserialize small_net (float (number true 1 false)) ≡ none)
unfolding deserialize visit_f64 f64_as_i64 visit_i64
float_tests = (refl, refl, refl)
