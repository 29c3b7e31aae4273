-- ===== src/Addr/Bounds.antt =====
-- libnp/src/lib.rs: every address that is read from outside has a port of 16 bits.
use mathlib.Core.Option
use nport.Prelude.{◌<◌, ◌≡◌, Option, none, some, arith, Option-cases, inl, inr}
use nport.Prelude.Int.{ℤ, pos, negsuc}
use nport.Text.{Text, split}
use nport.Text.Decimal.{parse_u16, parse_u16_bound}
use nport.Addr.Sockets.{Net}
use nport.Addr.{
  Addr, from_address, to_address, two_parts, from_host_and_port, from_socket_addr,
  try_parse_socket_addr, try_parse_hostname, from_str,
}
use nport.Addr.RoundTrip.{from_address-to_address}
use nport.Addr.Serde.{
  Value, float, unsigned, signed, text, visit_i64, visit_u64, visit_f64, visit_str, deserialize,
  u64_as_i64, f64_as_i64,
}

visit_i64_bound : (v : ℤ) (a : Addr) → visit_i64 v ≡ some a → a.port < 65536
unfolding visit_i64
visit_i64_bound (pos v) a e = ground (arith, e)
visit_i64_bound (negsuc v) a e = cc

module _ (net : Net) where
  from_parts_bound :
      (parts : Option (Text × Text)) (a : Addr)
      → (elim parts [
        | none ↦ none
        | some (host, port) ↦ Option.map (from_host_and_port net host) (parse_u16 port)
      ])
        ≡ some a
      → a.port < 65536
  unfolding from_host_and_port
  from_parts_bound none a e = cc
  from_parts_bound (some (host, port)) a e = elim (Option-cases (parse_u16 port)) [
    | inl n ↦ ground (arith, e, n)
    | inr (p, n) ↦ ground (arith, e, n, parse_u16_bound port p n)
  ]

  from_str_bound : (s : Text) (a : Addr) → from_str net s ≡ some a → a.port < 65536
  unfolding from_str try_parse_socket_addr try_parse_hostname from_socket_addr from_host_and_port
  from_str_bound s a e = elim (Option-cases (net.parse_socket_addr s)) [
    | inl n ↦
        from_parts_bound (two_parts (split b':' s)) a (rw (n, from_str, try_parse_socket_addr) at e)
    | inr ((ip, port), n) ↦ ground (arith, e, n, net.port_u16 s ip port n)
  ]

  deserialize_bound : (v : Value) (a : Addr) → deserialize net v ≡ some a → a.port < 65536
  unfolding deserialize visit_u64 visit_f64 visit_str
  deserialize_bound (float v) a e = visit_i64_bound (f64_as_i64 v) a e
  deserialize_bound (unsigned v) a e = visit_i64_bound (u64_as_i64 v) a e
  deserialize_bound (signed v) a e = visit_i64_bound v a e
  deserialize_bound (text v) a e = from_str_bound v a e

  -- Every address that is read from the settings, as a number, a float or a text, has a port of 16
  -- bits, and so comes out unchanged when it is put in a message and read on the other side.
  pub deserialize-from_address :
      (v : Value) (a : Addr)
      → deserialize net v ≡ some a
      → (a.port < 65536) × (from_address (some (to_address a)) ≡ a)
  deserialize-from_address v a e =
      let h = deserialize_bound v a e in (h, from_address-to_address a h)
