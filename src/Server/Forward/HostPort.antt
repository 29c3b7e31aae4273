-- ===== src/Server/Forward/HostPort.antt =====
-- nport-server/src/server/implementation.rs with handlers/websockets.rs: a request to a forwarding
-- on a port that its `Host` header names.
use nport.Prelude.{ℕ, ◌≡◌, refl, true, Bool, none, some, ◌++◌, [], ◌∷◌, arith, Bool-cases, inl, inr}
use nport.Text.{Text, codes, contains}
use nport.Text.Split.{Lacks}
use nport.StringSet
use nport.Addr.Sockets.{Net}
use nport.Server.Hostnames.{Hostnames}
use nport.Server.State.{World}
use nport.Server.Env.{Env}
use nport.Server.Registry.{get_by_http_hostname}
use nport.Server.Registry.Invariant.{Inv, get_by_none}
use nport.Server.Routing.{choose}
use nport.Server.Routing.Laws.{choose_lem}
use nport.Server.Forward.{
  Headers, no_client, status_code, Waited, forward_request, Incoming, enqueue_request, error_page,
  host_of, reply_with,
}
use nport.Server.Forward.Handler.{forward}

-- No name of a forwarding has a colon.
abbrev pub HasPlainNames : World → Type 0
HasPlainNames w =
    (h : Text) → StringSet.contains h w.registry.claimed_http_hostnames ≡ true → Lacks b':' h

contains-append : (s t : Text) → contains b':' (s ++ (codes ":" ++ t)) ≡ true
contains-append [] t = refl
contains-append (b ∷ s) t = ground (arith, contains-append s t)

module _ (w : World) (v : Inv w) (plain : HasPlainNames w) where
  named_port_unowned :
      (host port : Text) → get_by_http_hostname w (host ++ (codes ":" ++ port)) ≡ none
  named_port_unowned host port =
      let name = host ++ (codes ":" ++ port) in
      (get_by_none v name).1
        (elim (Bool-cases (StringSet.contains name w.registry.claimed_http_hostnames)) [
          | inl k ↦ absurd (ground (arith, plain name k, contains-append host port))
          | inr k ↦ k
        ])

  -- In a well-formed registry whose names have no colon, as host names do not: a request whose `Host`
  -- header names a port goes to the same router as one without the port, but the handler of the
  -- forwardings answers it with the page for 404, whoever owns the name, and asks no client.
  pub forward_host_port :
      (net : Net) (headers : Headers) (via_tls : Bool) (env : Env) (hostnames : Hostnames)
      (header host port path uuid : Text) (channel : ℕ) (incoming : Incoming) (waited : Waited)
      → Lacks b':' host
      → Lacks b':' port
      → headers.to_str header ≡ some (host ++ (codes ":" ++ port))
      → (choose hostnames (host ++ (codes ":" ++ port)) path ≡ choose hostnames host path)
        × (forward net headers via_tls env w (some header) uuid channel incoming waited
            ≡ some (w, error_page 404 (host ++ (codes ":" ++ port)) no_client))
  unfolding forward enqueue_request host_of forward_request reply_with status_code
  forward_host_port net headers via_tls env hostnames header host port path uuid channel incoming
        waited h p e =
      ((choose_lem hostnames host port path h p).0, ground (arith, e, named_port_unowned host port))
