-- ===== src/Server/Telemetry.antt =====
-- nport-server/src/main.rs and opentelemetry.rs: the headers for the exporter of telemetry, and the
-- filter of what is exported.
pub mod Laws
mod Tests
use nport.Prelude.{
  Bool, true, false, not, ◌&&◌, Option, none, some, List, [], ◌∷◌, if◌then◌else◌, ◌==◌,
}
use mathlib.Core.Option
use nport.Text.{Text, codes, split}
use nport.StringMap

-- The first two parts of a header; `none` is the panic of `expect` where there is one part only.
unfoldable pub parse_header : List Text → Option (Text × Text)
parse_header (key ∷ value ∷ parts) = some (key, value)
parse_header _ = none

unfoldable pub parse_headers : List Text → Option (List (Text × Text))
parse_headers [] = some []
parse_headers (header ∷ headers) = elim (parse_header (split b'=' header)) [
  | none ↦ none
  | some entry ↦ Option.map (◌∷◌ entry) (parse_headers headers)
]

-- The map of headers that `main` makes of the setting; `none` is a panic.
unfoldable pub headers_of : Text → Option (List (Text × Text))
headers_of setting = Option.map (StringMap.collect []) (parse_headers (split b',' setting))

-- `starts_with` at a text.
unfoldable pub starts_with : Text → Text → Bool
starts_with [] s = true
starts_with (p ∷ prefix) [] = false
starts_with (p ∷ prefix) (b ∷ s) = if p == b then starts_with prefix s else false

-- `Filter::is_enabled`, on the target of an event.
unfoldable pub is_enabled : Text → Bool
is_enabled target =
    not (starts_with (codes "h2::") target) && not (starts_with (codes "hyper::proto") target)
