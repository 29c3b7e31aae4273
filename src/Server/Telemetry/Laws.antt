-- ===== src/Server/Telemetry/Laws.antt =====
-- Which settings of the headers the server starts with.
use nport.Prelude.{
  ◌≡◌, ◌≢◌, refl, ap, ◌∙◌, inl, inr, true, none, some, List, [], ◌∷◌, ◌++◌, arith, All, map,
  Option-cases,
}
use nport.Text.{Text, codes, contains, split}
use nport.Text.Split.{Lacks, join, split-join, split-append, split_part}
use nport.StringMap
use nport.Server.Config.{default_config}
use nport.Server.Telemetry.{parse_header, parse_headers, headers_of}

abbrev pub HasEquals : Text → Type 0
HasEquals header = contains b'=' header ≡ true

-- A part without `=` makes the server panic.
parse_header-Lacks : (header : Text) → Lacks b'=' header → parse_header (split b'=' header) ≡ none
unfolding parse_header
parse_header-Lacks header l = rw (split_part b'=' header l) refl

parse_headers-Lacks :
    (headers others : List Text) (header : Text)
    → Lacks b'=' header
    → parse_headers (others ++ header ∷ headers) ≡ none
unfolding parse_headers
parse_headers-Lacks headers [] header l = ground (arith, parse_header-Lacks header l)
parse_headers-Lacks headers (other ∷ others) header l =
    elim (Option-cases (parse_header (split b'=' other))) [
      | inl n ↦ ground (arith, n)
      | inr (entry, n) ↦ ground (arith, n, parse_headers-Lacks headers others header l)
    ]

-- A header as it stands in the setting.
abbrev pub written : Text × Text → Text
written (key, value) = key ++ (codes "=" ++ value)

-- The key and the value hold neither separator.
abbrev pub IsPlain : Text × Text → Type 0
IsPlain (key, value) = Lacks b'=' key × Lacks b'=' value × Lacks b',' (written (key, value))

parse_header-written :
    (e : Text × Text) → IsPlain e → parse_header (split b'=' (written e)) ≡ some e
unfolding parse_header
parse_header-written (key, value) (k, v, c) =
    ap parse_header (split-append b'=' key value k ∙ ap (◌∷◌ key) (split_part b'=' value v))

parse_headers-written :
    (entries : List (Text × Text))
    → All IsPlain entries
    → parse_headers (map written entries) ≡ some entries
unfolding parse_headers
parse_headers-written [] a = refl
parse_headers-written (e ∷ entries) (p, a) =
    ground (arith, parse_header-written e p, parse_headers-written entries a)

All-Lacks :
    (entries : List (Text × Text)) → All IsPlain entries → All (Lacks b',') (map written entries)
All-Lacks [] a = tt
All-Lacks ((key, value) ∷ entries) ((k, v, c), a) = (c, All-Lacks entries a)

map-ne-nil : (entries : List (Text × Text)) → entries ≢ [] → map written entries ≢ []
map-ne-nil [] n e = n refl
map-ne-nil (x ∷ entries) n e = cc

-- Headers that are written as `key=value` with commas between them, where no key or value holds
-- either separator, are read as they are, the last value of a key. The server panics on any setting
-- that has a part without `=` between its commas, as the empty setting has, which is the default.
pub headers_of-join :
    (entries : List (Text × Text))
    → entries ≢ []
    → All IsPlain entries
    → (headers_of (join (codes ",") (map written entries)) ≡ some (StringMap.collect [] entries))
      × ((setting header : Text) (others headers : List Text)
          → split b',' setting ≡ others ++ header ∷ headers
          → Lacks b'=' header
          → headers_of setting ≡ none)
      × (headers_of default_config.otel_otlp_headers ≡ none)
unfolding headers_of parse_headers split
headers_of-join entries n a =
    let parts =
      split-join b',' (map written entries) (map-ne-nil entries n) (All-Lacks entries a) in
    (
      rw (parts, parse_headers-written entries a) refl,
      λ setting header others headers e l. rw (e, parse_headers-Lacks headers others header l) refl,
      rw (parse_headers-Lacks [] [] [] refl) refl,
    )
