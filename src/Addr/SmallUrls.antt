-- ===== src/Addr/SmallUrls.antt =====
-- A small parser of URLs: what the model takes as a parameter can be had.
use nport.Prelude.{
  ℕ, ◌<◌, ◌≡◌, refl, ap, ◌∙◌, true, not, Bool, Option, none, some, [], ◌∷◌, ◌++◌, Result, ok, err,
  arith,
}
use nport.Text.{Text, codes, contains, split}
use nport.Text.Decimal.{print_u16, parse_u16, parse_u16-print, print-Lacks}
use nport.Addr.{two_parts}
use nport.Addr.SmallNet.{split_pair}
use nport.Addr.Split.{Url, UrlParser}

unfoldable pub url_of : Option (Text × Text) → Result Text Url
url_of none = err []
url_of (some (host, port)) =
    ok (record { scheme = codes "tcp"; host_str = some host; port = parse_u16 port })

-- What stands after `tcp://`.
abbrev pub small_parse : Text → Result Text Url
small_parse (a ∷ b ∷ c ∷ d ∷ e ∷ f ∷ rest) = url_of (two_parts (split b':' rest))
small_parse _ = err []

abbrev pub is_name : Text → Bool
is_name host = not (contains b':' host)

pub small_host_port :
    (host : Text) (port : ℕ)
    → is_name host ≡ true
    → port < 65536
    → small_parse (codes "tcp" ++ (codes "://" ++ (host ++ (codes ":" ++ print_u16 port))))
      ≡ ok (record { scheme = codes "tcp"; host_str = some host; port = some port })
unfolding url_of
small_host_port host port e h =
    ap (λ parts. url_of (two_parts parts))
      (split_pair host (print_u16 port) (ground (arith, e)) (print-Lacks 5 port))
    ∙ ap (λ p. ok (record { scheme = codes "tcp"; host_str = some host; port = p }))
        (parse_u16-print port h)

abbrev pub small_urls : UrlParser
small_urls = record {
  parse = small_parse;
  is_host = is_name;
  parse_host_port = small_host_port;
  default_is_host = refl;
}
