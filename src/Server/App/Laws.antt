-- ===== src/Server/App/Laws.antt =====
-- Where a request goes that is redirected to TLS.
use nport.Prelude.{◌≡◌, ◌≢◌, refl, Bool, none, some, arith, Option-cases, inl, inr}
use nport.Text.{Text}
use nport.Text.Laws.{text_eq_iff, text_eq_refl}
use nport.Text.Split.{Lacks}
use nport.Server.State.{World}
use nport.Server.Routing.{Router, api, main, forwarding, choose, host_of, to_tls, authority_of}
use nport.Server.Routing.Laws.{authority_host, choose_host}
use nport.Server.App.{
  AppState, with_tls, Request, Handler, redirected, handled, forward, websocket, get, main_route,
  serve, run_router, behind_tls, tls_of,
}

module _ (is_uri : Text → Text → Bool) (state : AppState) where
  to_tls-with_tls :
      (path : Text) → to_tls is_uri state.hostnames (tls_of (with_tls state)) path ≡ none
  unfolding to_tls
  to_tls-with_tls path = ground arith

  to_tls_authority :
      (path authority : Text)
      → to_tls is_uri state.hostnames (tls_of state) path ≡ some authority
      → authority ≡ authority_of state.hostnames state.listen.https
  unfolding to_tls
  to_tls_authority path authority e = ground (arith, e)

  main_at_authority :
      (host path : Text)
      → Lacks b':' state.hostnames.domain
      → choose state.hostnames host path ≡ main
      → choose state.hostnames (authority_of state.hostnames state.listen.https) path ≡ main
  main_at_authority host path l e =
      let hostnames = state.hostnames in
      let asked = choose_host hostnames host (host_of host) path refl in
      let again =
        choose_host hostnames (authority_of hostnames state.listen.https) hostnames.domain path
          (authority_host hostnames state.listen.https l) in
      ground (
        arith,
        e,
        asked,
        again,
        text_eq_iff (host_of host) hostnames.domain,
        text_eq_refl hostnames.domain,
      )

  behind_tls-with_tls :
      (path : Text) (handler : Handler)
      → behind_tls is_uri (with_tls state) path handler ≡ handled handler
  behind_tls-with_tls path handler = ground (arith, to_tls-with_tls path)

  run_router-with_tls :
      (request : Request) (router : Router) (authority : Text)
      → run_router is_uri (with_tls state) request router ≢ redirected authority
  run_router-with_tls request api authority =
      rw (behind_tls-with_tls request.path (get request.method websocket)) (λ e. cc)
  run_router-with_tls request forwarding authority = λ e. cc
  run_router-with_tls request main authority = elim (Option-cases (main_route request.path)) [
    | inl n ↦ rw n (λ e. cc)
    | inr (handler, r) ↦
        rw (r, behind_tls-with_tls request.path (get request.method handler)) (λ e. cc)
  ]

  behind_tls-redirected :
      (path authority : Text) (handler : Handler)
      → behind_tls is_uri state path handler ≡ redirected authority
      → authority ≡ authority_of state.hostnames state.listen.https
  behind_tls-redirected path authority handler e =
      elim (Option-cases (to_tls is_uri state.hostnames (tls_of state) path)) [
        | inl n ↦ ground (arith, e, n)
        | inr (a, n) ↦ ground (arith, e, n, to_tls_authority path a n)
      ]

  -- A request for the site that is redirected to TLS is one for a page. Following the redirection
  -- leads, over TLS, to the handler of that page; nothing that came over TLS is redirected, so there
  -- is no loop. A request for a forwarding is never redirected.
  pub redirect_served :
      (w : World) (request : Request) (authority : Text)
      → Lacks b':' state.hostnames.domain
      → choose state.hostnames request.host request.path ≡ main
      → (serve is_uri state w request).1 ≡ redirected authority
      → (handler : Handler) × (main_route request.path ≡ some handler)
        × ((w' : World)
            → (serve is_uri (with_tls state) w' (record request { host = authority })).1
              ≡ handled (get request.method handler))
        × ((w' : World) (other : Request) (a : Text)
            → (serve is_uri (with_tls state) w' other).1 ≢ redirected a)
        × ((other : Request)
            → choose state.hostnames other.host other.path ≡ forwarding
            → (serve is_uri state w other).1 ≡ handled forward)
  unfolding serve
  redirect_served w request authority l m e = elim (Option-cases (main_route request.path)) [
    | inl n ↦ absurd (ground (arith, m, e, n))
    | inr (handler, r) ↦
        let redirect : behind_tls is_uri state request.path (get request.method handler)
            ≡ redirected authority =
          ground (arith, m, e, r) in
        let target =
          behind_tls-redirected request.path authority (get request.method handler) redirect in
        let arrives : choose state.hostnames authority request.path ≡ main =
          rw target (main_at_authority request.host request.path l m) in
        (
          handler,
          r,
          λ w'. rw (arrives, r) (behind_tls-with_tls request.path (get request.method handler)),
          λ w' other a. run_router-with_tls other (choose state.hostnames other.host other.path) a,
          λ other f. rw f refl,
        )
  ]
