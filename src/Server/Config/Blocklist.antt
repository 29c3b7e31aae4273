-- ===== src/Server/Config/Blocklist.antt =====
-- nport-server/src/server/config.rs: the list of blocked subdomains, from the text of the setting to
-- the check of a name.
use nport.Prelude.{
  ◌≡◌, ◌≢◌, refl, ap, ◌∙◌, true, Option, List, [], ◌∷◌, Result, ok, arith, All, map, any,
  Bool-cases, inl, inr,
}
use nport.Text.{Text, codes, text_eq, split}
use nport.Text.Laws.{text_eq_iff, text_eq_refl}
use nport.Text.Split.{Lacks, join, split-join}
use nport.Text.Lowercase.{Lowercase}
use nport.StringSet
use nport.Server.Hostnames.{is_subdomain_blocked, normalize_subdomain}
use nport.Server.Hostnames
use nport.Server.Stats.{Stats}
use nport.Server.Config.{Config, StoreConfig}
use nport.Server.Config.Setup.{Trim, string_list, drop_empty, Server, server, server_parts}

module _ (t : Trim) where
  abbrev pub IsEntry : Text → Type 0
  IsEntry s = (t.is_trimmed s ≡ true) × Lacks b',' s

  join-trimmed :
      (name : Text) (names : List Text)
      → All IsEntry (name ∷ names)
      → t.is_trimmed (join (codes ",") (name ∷ names)) ≡ true
  unfolding join
  join-trimmed name [] (e, a) = e.0
  join-trimmed name (next ∷ names) (e, a) =
      t.ends_lem name (codes ",") (join (codes ",") (next ∷ names)) e.0 (join-trimmed next names a)

  map-trim : (names : List Text) → All IsEntry names → map t.trim names ≡ names
  map-trim [] a = refl
  map-trim (name ∷ names) (e, a) = rw ((t.trim_lem name e.0).0, map-trim names a) refl

  drop_empty-entries : (names : List Text) → All IsEntry names → drop_empty names ≡ names
  drop_empty-entries [] a = refl
  drop_empty-entries (name ∷ names) (e, a) =
      rw ((t.trim_lem name e.0).1, drop_empty-entries names a) refl

  All-Lacks : (names : List Text) → All IsEntry names → All (Lacks b',') names
  All-Lacks [] a = tt
  All-Lacks (name ∷ names) (e, a) = (e.1, All-Lacks names a)

  -- A setting that lists the names is read as those names.
  pub string_list-join :
      (names : List Text)
      → names ≢ []
      → All IsEntry names
      → string_list t (join (codes ",") names) ≡ names
  unfolding string_list
  string_list-join [] n a = absurd (n refl)
  string_list-join (name ∷ names) n a =
      let all = name ∷ names in
      let trimmed = (t.trim_lem (join (codes ",") all) (join-trimmed name names a)).0 in
      let parts = split-join b',' all n (All-Lacks all a) in
      ap (λ u. drop_empty (map t.trim (split b',' u))) trimmed
      ∙ ap (λ ps. drop_empty (map t.trim ps)) parts
      ∙ ap drop_empty (map-trim all a)
      ∙ drop_empty-entries all a

any-normalized :
    (lower : Lowercase) (name : Text) (names : List Text)
    → StringSet.contains name names ≡ true
    → any (λ item. text_eq item (lower.to_lowercase name)) (map lower.to_lowercase names) ≡ true
unfolding StringSet.contains
any-normalized lower name [] e = e
any-normalized lower name (x ∷ names) e = elim (Bool-cases (text_eq x name)) [
  | inl same ↦
      let equal = (text_eq_iff x name).0 same in
      rw (equal, text_eq_refl (lower.to_lowercase name)) refl
  | inr other ↦ ground (arith, e, other, any-normalized lower name names)
]

-- Where the setting `SUBDOMAIN_BLOCKLIST` lists names, separated by commas, and the server starts,
-- it blocks each of them.
pub blocklist_blocks :
    (t : Trim) (lower : Lowercase) (ip_addr : Text → Result Text Text)
    (load : StoreConfig → Result Text (Unit {0})) (config : Config) (stats : Option Stats)
    (s : Server) (names : List Text) (name : Text)
    → names ≢ []
    → All (IsEntry t) names
    → config.subdomain_blocklist ≡ string_list t (join (codes ",") names)
    → server lower ip_addr load config stats ≡ ok s
    → StringSet.contains name names ≡ true
    → is_subdomain_blocked lower s.hostnames name ≡ true
unfolding is_subdomain_blocked normalize_subdomain Hostnames.new
blocklist_blocks t lower ip_addr load config stats s names name n a b e k =
    let (started, port, hostnames) = server_parts lower ip_addr load config stats s e in
    let entries = b ∙ string_list-join t names n a in
    rw (hostnames, entries) (any-normalized lower name names k)
