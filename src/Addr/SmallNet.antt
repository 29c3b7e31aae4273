-- ===== src/Addr/SmallNet.antt =====
-- A small world of addresses, in which 127.0.0.1 is the only IP address: the parsers that the model
-- takes as a parameter can be had.
use mathlib.Core.Option
use nport.Prelude.{
  ℕ, ◌<◌, ◌≡◌, refl, ap, ◌∙◌, Bool, true, false, Option, none, some, List, [], ◌∷◌, ◌++◌,
  if◌then◌else◌, Option-cases, inl, inr, arith,
}
use nport.Text.{Text, codes, text_eq, contains, split}
use nport.Text.Laws.{text_eq_iff}
use nport.Text.Split.{Lacks, split-append, split_part}
use nport.Text.Decimal.{print_u16, parse_u16, parse_u16-print, parse_u16_bound, print-Lacks}
use nport.Addr.{default_addr_host, two_parts}
use nport.Addr.Sockets.{Net}

abbrev pub is_default : Text → Bool
is_default s = text_eq s default_addr_host

unfoldable pub read_parts : Option (Text × Text) → Option (Text × ℕ)
read_parts none = none
read_parts (some (host, port)) =
    if is_default host then Option.map (λ p. (host, p)) (parse_u16 port) else none

abbrev pub small_parse : Text → Option (Text × ℕ)
small_parse s = read_parts (two_parts (split b':' s))

pub split_pair :
    (host port : Text)
    → Lacks b':' host
    → Lacks b':' port
    → split b':' (host ++ (codes ":" ++ port)) ≡ host ∷ port ∷ []
split_pair host port h p =
    split-append b':' host port h
    ∙ ap (λ (parts : List Text). host ∷ parts) (split_part b':' port p)

shown_default :
    (port : ℕ)
    → port < 65536
    → small_parse (default_addr_host ++ (codes ":" ++ print_u16 port))
      ≡ some (default_addr_host, port)
unfolding read_parts text_eq
shown_default port h =
    ap (λ parts. read_parts (two_parts parts))
      (split_pair default_addr_host (print_u16 port) refl (print-Lacks 5 port))
    ∙ ap (Option.map (λ (p : ℕ). (default_addr_host, p))) (parse_u16-print port h)

pub small_shown :
    (ip : Text) (port : ℕ)
    → is_default ip ≡ true
    → port < 65536
    → small_parse (
        (if contains b':' ip then codes "[" ++ (ip ++ codes "]") else ip)
        ++ (codes ":" ++ print_u16 port))
      ≡ some (ip, port)
small_shown ip port e h = rw ((text_eq_iff ip default_addr_host).0 e) (shown_default port h)

pub small_host :
    (host port : Text)
    → is_default host ≡ false
    → Lacks b':' host
    → Lacks b':' port
    → small_parse (host ++ (codes ":" ++ port)) ≡ none
unfolding read_parts
small_host host port e h p =
    ap (λ parts. read_parts (two_parts parts)) (split_pair host port h p) ∙ rw e

pub small_port :
    (parts : Option (Text × Text)) (ip : Text) (port : ℕ)
    → read_parts parts ≡ some (ip, port)
    → port < 65536
unfolding read_parts
small_port none ip port e = cc
small_port (some (host, text)) ip port e = elim (Option-cases (parse_u16 text)) [
  | inl n ↦ ground (arith, e, n)
  | inr (p, n) ↦ ground (arith, e, n, parse_u16_bound text p n)
]

abbrev pub small_net : Net
unfolding text_eq
small_net = record {
  is_ip = is_default;
  is_shown = is_default;
  is_loopback = is_default;
  parse_socket_addr = small_parse;
  port_u16 = λ s. small_port (two_parts (split b':' s));
  parse_shown = small_shown;
  parse_host = small_host;
  default_shown = refl;
  default_loopback = refl;
}
