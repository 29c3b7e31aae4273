-- ===== src/Np/Tunnel/Reopened.antt =====
-- nport-server/src/server/handlers/websockets.rs and msghandlers/http.rs: a client that has just
-- connected asks for a forwarding, and the server opens it.
use nport.Prelude.{ℕ, ◌<◌, ◌≡◌, sym, subst, ap, true, none, some, ok, arith, ==_refl, inl, inr}
use nport.Text.{Text}
use nport.Text.Lowercase.{Lowercase}
use nport.Addr.Sockets.{Net}
use nport.StringMap
use nport.StringMap.{get-nil}
use nport.Server.State.{World, count}
use nport.Server.Env as ServerEnv
use nport.Server.Client as ServerClient
use nport.Server.Registry.{register}
use nport.Server.Registry.Ownership.{view}
use nport.Server.Msghandlers.{msg}
use nport.Server.Session.{Config, Server, connect, send_welcome, joined, after, connects}
use nport.Server.Session.Invariant.{ServerInv, Step-ServerInv, joined_some, connect_cases}
use nport.Prelude.{Option, Result, err, refl, ◌∙◌}
use nport.Messages.Client.{HttpOpen, http_open}
use nport.Server.Hostnames.{Hostnames}
use nport.Server.Forwarding.{ValidationError, unwrap_or, subdomain_for_forwarding}
use nport.Server.Registry.{claim_http_hostname, add_http_hostname}
use nport.Server.Msghandlers.Http.{open_forwarding, answer_open, open_hostname, full_hostname}
use nport.Server.Msghandlers.Opening.{open_forwarding_lem}
use nport.Server.Registry.Invariant.{IsRegistered}
use nport.Text.Laws.{text_eq_refl}

module _ (config : Config) (env : ServerEnv.Env) (w : World) where
  -- A client that has just connected has no connections to ports.
  connected_fresh :
      (uuid : Text)
      → StringMap.get uuid ((connect config env w).0.client w.next).port_writers ≡ none
  unfolding connect send_welcome ServerClient.send register
  connected_fresh uuid = ground (arith, ==_refl w.next, get-nil {V = ℕ} uuid)

  connected_next : (c : ℕ) → (connect config env w).1 ≡ some c → c ≡ w.next
  connected_next c e = elim (connect_cases config env w) [
    | inl (n, _) ↦ ground (arith, n, e)
    | inr (n, _) ↦ ground (arith, n, e)
  ]

module _ (lower : Lowercase) (hostnames : Hostnames) (env : ServerEnv.Env) (w : World) (c : ℕ) where
  answered-port_writers :
      (request : HttpOpen) (s : Result ValidationError (Option Text))
      → ((answer_open env hostnames.domain w c request s).0.client c).port_writers
        ≡ (w.client c).port_writers
  unfolding answer_open open_hostname claim_http_hostname add_http_hostname ServerClient.send
  answered-port_writers request (err e) = ground arith
  answered-port_writers request (ok s) = ground arith

  pub open-port_writers :
      (request : HttpOpen)
      → ((open_forwarding env lower hostnames w c request).0.client c).port_writers
        ≡ (w.client c).port_writers
  unfolding open_forwarding
  open-port_writers request =
      answered-port_writers request (subdomain_for_forwarding lower hostnames request.hostname)

  answer_succeeds :
      (request : HttpOpen) (s : Result ValidationError (Option Text))
      → env.link ≡ true
      → (answer_open env hostnames.domain w c request s).1 ≡ ok tt
  unfolding answer_open open_hostname ServerClient.send
  answer_succeeds request (err e) l = ground (arith, l)
  answer_succeeds request (ok s) l = ground (arith, l)

  open_succeeds :
      (request : HttpOpen)
      → env.link ≡ true
      → (open_forwarding env lower hostnames w c request).1 ≡ ok tt
  unfolding open_forwarding
  open_succeeds request l =
      answer_succeeds request (subdomain_for_forwarding lower hostnames request.hostname) l

-- What the server is after a handler that succeeded.
after-ok :
    (s : Server) (c : ℕ) (p : World × Result ServerClient.Error (Unit {0}))
    → p.1 ≡ ok tt
    → after s c p ≡ record s { world = p.0 }
after-ok s c (w, ok u) e = refl
after-ok s c (w, err m) e = absurd (ground (arith, e))

module _ (lower : Lowercase) (net : Net) (config : Config) (env : ServerEnv.Env) (v : Server)
    (c : ℕ) (i : ServerInv v) (j : (connect config env v.world).1 ≡ some c) where
  abbrev back : Server
  back = joined v (connect config env v.world)

  pub back-active : 0 < count c back.active
  back-active =
      subst (λ s. 0 < count c s.active) (sym (joined_some v (connect config env v.world) c j))
        (ground (arith, ==_refl c))

  pub back-fresh : (uuid : Text) → StringMap.get uuid (back.world.client c).port_writers ≡ none
  back-fresh uuid =
      let same : c ≡ v.world.next = connected_next config env v.world c j in
      subst (λ s. StringMap.get uuid (s.world.client c).port_writers ≡ none)
        (sym (joined_some v (connect config env v.world) c j))
        (rw same (connected_fresh config env v.world uuid))

  pub back-ServerInv : ServerInv back
  back-ServerInv = Step-ServerInv lower net config (connects env) i

  -- The server has opened a forwarding for the client that is back.
  abbrev pub opened_for : HttpOpen → Server
  opened_for request =
      after back c (msg lower net config.hostnames env back.world c (some (http_open request)))

  pub opened_for-ok :
      (request : HttpOpen)
      → env.link ≡ true
      → opened_for request ≡ record back {
        world = (open_forwarding env lower config.hostnames back.world c request).0;
      }
  unfolding msg
  opened_for-ok request l =
      after-ok back c (open_forwarding env lower config.hostnames back.world c request)
        (open_succeeds lower config.hostnames env back.world c request l)

  pub opened_for-view :
      (request : HttpOpen) (subdomain : Option Text)
      → env.link ≡ true
      → subdomain_for_forwarding lower config.hostnames request.hostname ≡ ok subdomain
      → let name = full_hostname config.hostnames.domain (unwrap_or subdomain env.generated) in
        view back.world name ≡ none → view (opened_for request).world name ≡ some c
  opened_for-view request subdomain l e free =
      let name = full_hostname config.hostnames.domain (unwrap_or subdomain env.generated) in
      let registered : IsRegistered back.world c =
        omega (arith, back-ServerInv.registered c, back-active) in
      let owners =
        (open_forwarding_lem env back.world c back-ServerInv.inv registered lower config.hostnames
          request).0 in
      subst (λ s. view s.world name ≡ some c) (sym (opened_for-ok request l))
        (ap (λ o. o name) owners ∙ rw (e, free, text_eq_refl name) refl)
