-- ===== src/Server/Routing/Laws.antt =====
-- The routes do not depend on the port, and where a redirected request arrives.
use nport.Prelude.{
  ℕ, ◌≡◌, ◌≢◌, ◌↔◌, refl, sym, ◌∙◌, Bool, ◌&&◌, none, some, [], ◌∷◌, ◌++◌, arith, ◌==◌,
  if◌then◌else◌, Bool-cases, inl, inr,
}
use nport.Text.{Text, codes, text_eq}
use nport.Text.Laws.{text_eq_iff, text_eq_refl}
use nport.Text.Split.{Lacks}
use nport.Text.Decimal.{print_u16, print-Lacks}
use nport.Server.Hostnames.{Hostnames}
use nport.Server.Routing.{
  rsplit_once, host_of, api, main, forwarding, choose, api_connect_path, Tls, authority_of, to_tls,
}

rsplit_once-Lacks : (s : Text) → Lacks b':' s → rsplit_once b':' s ≡ none
unfolding rsplit_once
rsplit_once-Lacks [] l = refl
rsplit_once-Lacks (b ∷ s) l = ground (arith, l, rsplit_once-Lacks s)

rsplit_once-append :
    (host port : Text)
    → Lacks b':' port
    → rsplit_once b':' (host ++ (codes ":" ++ port)) ≡ some host
unfolding rsplit_once
rsplit_once-append [] port l = ground (arith, rsplit_once-Lacks port l)
rsplit_once-append (b ∷ host) port l = ground (arith, rsplit_once-append host port l)

host_of-bare : (host : Text) → Lacks b':' host → host_of host ≡ host
unfolding host_of
host_of-bare host l = rw (rsplit_once-Lacks host l) refl

host_of-port : (host port : Text) → Lacks b':' port → host_of (host ++ (codes ":" ++ port)) ≡ host
unfolding host_of
host_of-port host port l = rw (rsplit_once-append host port l) refl

module _ (hostnames : Hostnames) where
  pub choose_host :
      (hostname host path : Text)
      → host_of hostname ≡ host
      → choose hostnames hostname path ≡ (
          if text_eq host hostnames.api_hostname && text_eq path api_connect_path
          then api
          else if text_eq host hostnames.domain
          then main
          else forwarding)
  unfolding choose
  choose_host hostname host path e = rw e refl

  -- The port that a request names does not change its router. The API answers exactly the requests
  -- to its host name and the path for connecting, also where that is the main host name; the
  -- others to the main host name go to the site, and all that are left to the forwardings.
  pub choose_lem :
      (host port path : Text)
      → Lacks b':' host
      → Lacks b':' port
      → (choose hostnames (host ++ (codes ":" ++ port)) path ≡ choose hostnames host path)
        × ((choose hostnames host path ≡ api)
            ↔ ((host ≡ hostnames.api_hostname) × (path ≡ api_connect_path)))
        × (choose hostnames host path ≢ api
            → (choose hostnames host path ≡ main) ↔ (host ≡ hostnames.domain))
        × ((choose hostnames host path ≡ forwarding) → host ≢ hostnames.domain)
  choose_lem host port path h p =
      let bare = choose_host host host path (host_of-bare host h) in
      let with_port =
        choose_host (host ++ (codes ":" ++ port)) host path (host_of-port host port p) in
      let is_api = text_eq_iff host hostnames.api_hostname in
      let is_path = text_eq_iff path api_connect_path in
      let is_main = text_eq_iff host hostnames.domain in
      (
        with_port ∙ sym bare,
        (
          λ e. ground (arith, bare, is_api, is_path, e),
          λ e. ground (arith, bare, is_api, is_path, e),
        ),
        λ n. (λ e. ground (arith, bare, is_main, e), λ e. ground (arith, bare, is_main, e, n)),
        λ e m. ground (arith, bare, is_main, e, m),
      )

  pub authority_host :
      (https_port : ℕ)
      → Lacks b':' hostnames.domain
      → host_of (authority_of hostnames https_port) ≡ hostnames.domain
  authority_host https_port l = elim (Bool-cases (https_port == 443)) [
    | inl e ↦ rw e (host_of-bare hostnames.domain l)
    | inr e ↦ rw e (host_of-port hostnames.domain (print_u16 https_port) (print-Lacks 5 https_port))
  ]

  -- A request that is redirected to TLS is sent to the main host name, whatever host name it came
  -- for. Where the API has a host name of its own, a connection of np that comes without TLS thus
  -- arrives at the site and not at the API.
  pub redirect_leaves_api :
      (is_uri : Text → Text → Bool) (tls : Tls) (path authority : Text)
      → Lacks b':' hostnames.domain
      → hostnames.api_hostname ≢ hostnames.domain
      → to_tls is_uri hostnames tls path ≡ some authority
      → choose hostnames authority path ≡ main
  unfolding to_tls
  redirect_leaves_api is_uri tls path authority l n e =
      let same : authority_of hostnames tls.https_port ≡ authority = ground (arith, e) in
      rw⁻¹ same (
        choose_host (authority_of hostnames tls.https_port) hostnames.domain path
          (authority_host tls.https_port l)
        ∙ ground (
          arith,
          n,
          text_eq_iff hostnames.domain hostnames.api_hostname,
          text_eq_refl hostnames.domain,
        ))
