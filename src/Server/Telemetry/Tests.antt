-- ===== src/Server/Telemetry/Tests.antt =====
-- One header, and what is exported.
use nport.Prelude.{◌≡◌, ◌≢◌, refl, true, false, none, some, List, [], ◌∷◌, ◌++◌, map}
use nport.Text.{Text, codes, split}
use nport.Text.Split.{Lacks, join}
use nport.StringMap
use nport.Server.Config.{default_config}
use nport.Server.Telemetry.{headers_of, is_enabled, starts_with}
use nport.Server.Telemetry.Laws.{written, headers_of-join}

abbrev entries : List (Text × Text)
entries = (codes "x-token", codes "secret") ∷ []

some_entry : entries ≢ []
some_entry = λ e. cc

headers_of-join_example :
    (headers_of (join (codes ",") (map written entries)) ≡ some (StringMap.collect [] entries))
    × ((setting header : Text) (others headers : List Text)
        → split b',' setting ≡ others ++ header ∷ headers
        → Lacks b'=' header
        → headers_of setting ≡ none)
    × (headers_of default_config.otel_otlp_headers ≡ none)
headers_of-join_example = headers_of-join entries some_entry ((refl, refl, refl), tt)

filter_tests :
    (is_enabled (codes "h2::codec") ≡ false)
    × (is_enabled (codes "hyper::proto::h1") ≡ false)
    × (is_enabled (codes "hyper::client") ≡ true)
unfolding is_enabled starts_with
filter_tests = (refl, refl, refl)
