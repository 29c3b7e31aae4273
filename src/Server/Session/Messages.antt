-- ===== src/Server/Session/Messages.antt =====
-- What one message can change: only its own client gains names, and no connection is counted.
use nport.Prelude.{ℕ, ◌≡◌, refl, sym, ap, ◌∙◌, ◌⊎◌, inl, Option, none, some, Result, ok, err, arith}
use nport.Text.{Text}
use nport.Text.Lowercase.{Lowercase}
use nport.Addr.Sockets.{Net}
use nport.Messages.Client.{
  Message, HttpOpen, HttpClose, PortOpen, http_open, http_close, http_response, port_open,
  port_connected, port_receive, port_close,
}
use nport.Messages.Server
use nport.Server.Hostnames.{Hostnames}
use nport.Server.Stats.{CountedMetric}
use nport.Server.State.{World}
use nport.Server.Env.{Env}
use nport.Server.Client.{
  Error, send, send_http_response, send_connected_response, register_port, port_message,
}
use nport.Server.Client
use nport.Server.Registry.{
  claim_http_hostname, release_http_hostname, add_http_hostname, remove_http_hostname,
}
use nport.Server.Registry.Invariant.{Inv, IsRegistered}
use nport.Server.Registry.Ownership.{Owners, view, release}
use nport.Server.Client.Laws.{
  send_http_response-SameNames, send_connected_response-SameNames, port_message-SameNames,
}
use nport.Server.Forwarding.{ValidationError, subdomain_for_forwarding}
use nport.Server.Msghandlers.Http.{answer_open, open_hostname, open_forwarding, close_forwarding}
use nport.Server.Msghandlers.Port.{open_port, server}
use nport.Server.Msghandlers.Port
use nport.Server.Msghandlers.Laws.{open_tcp-SameNames}
use nport.Server.Msghandlers.Opening.{view_same, owners_after, open_forwarding_lem}
use nport.Server.Msghandlers.Closing.{close_forwarding_lem}
use nport.Server.Msghandlers.{msg}

-- A name that has an owner after had the same owner before, or is the client's.
abbrev pub OnlyFor : ℕ → Owners → Owners → Type 0
OnlyFor c o o' = (h : Text) (d : ℕ) → o' h ≡ some d → (o h ≡ some d) ⊎ (d ≡ c)

OnlyFor-eq : (c : ℕ) (o o' : Owners) → o' ≡ o → OnlyFor c o o'
OnlyFor-eq c o o' e h d p = inl (ap (λ f. f h) (sym e) ∙ p)

owners_after-OnlyFor :
    (domain generated : Text) (c : ℕ) (o : Owners) (s : Result ValidationError (Option Text))
    → OnlyFor c o (owners_after domain generated c o s)
owners_after-OnlyFor domain generated c o (err e) h d p = inl p
owners_after-OnlyFor domain generated c o (ok s) h d p = ground arith

release-OnlyFor : (c : ℕ) (k : Text) (o : Owners) → OnlyFor c o (release c k o).0
release-OnlyFor c k o h d p = ground arith

module _ (lower : Lowercase) (net : Net) (hostnames : Hostnames) (env : Env) where
  pub msg-OnlyFor :
      (w : World) (c : ℕ) (m : Option Message)
      → Inv w
      → IsRegistered w c
      → OnlyFor c (view w) (view (msg lower net hostnames env w c m).0)
  unfolding msg Client.port_receive Client.port_close
  msg-OnlyFor w c none v r h d p = inl p
  msg-OnlyFor w c (some (http_open request)) v r h d p =
      owners_after-OnlyFor hostnames.domain env.generated c (view w)
        (subdomain_for_forwarding lower hostnames request.hostname) h d
        (ap (λ f. f h) (sym (open_forwarding_lem env w c v r lower hostnames request).0) ∙ p)
  msg-OnlyFor w c (some (http_close request)) v r h d p =
      release-OnlyFor c request.hostname (view w) h d
        (ap (λ f. f h) (sym (close_forwarding_lem env w c v r request).0) ∙ p)
  msg-OnlyFor w c (some (http_response response)) v r h d p =
      OnlyFor-eq c _ _ (view_same (send_http_response-SameNames env w c response)) h d p
  msg-OnlyFor w c (some (port_open request)) v r h d p =
      OnlyFor-eq c _ _ (view_same (open_tcp-SameNames lower net hostnames env w c request)) h d p
  msg-OnlyFor w c (some (port_connected connected)) v r h d p =
      OnlyFor-eq c _ _ (view_same (send_connected_response-SameNames env w c connected)) h d p
  msg-OnlyFor w c (some (port_receive received)) v r h d p =
      OnlyFor-eq c _ _ (view_same (port_message-SameNames env w c received.uuid _)) h d p
  msg-OnlyFor w c (some (port_close closed)) v r h d p =
      OnlyFor-eq c _ _ (view_same (port_message-SameNames env w c closed.uuid _)) h d p

abbrev pub connections : World → CountedMetric
connections w = w.stats.client_connections

connections-claim :
    (w : World) (c : ℕ) (h : Text) → connections (claim_http_hostname w c h).0 ≡ connections w
unfolding claim_http_hostname add_http_hostname
connections-claim w c h = ground arith

connections-release :
    (w : World) (c : ℕ) (h : Text) → connections (release_http_hostname w c h).0 ≡ connections w
unfolding release_http_hostname remove_http_hostname
connections-release w c h = ground arith

module _ (env : Env) (w : World) (c : ℕ) where
  connections-send : (m : Server.Message) → connections (send env w c m).0 ≡ connections w
  unfolding send
  connections-send m = ground arith

  connections-open_hostname :
      (request : HttpOpen) (h : Text)
      → connections (open_hostname env w c request h).0 ≡ connections w
  unfolding open_hostname send
  connections-open_hostname request h = ground (arith, connections-claim w c h)

  connections-answer_open :
      (domain : Text) (request : HttpOpen) (s : Result ValidationError (Option Text))
      → connections (answer_open env domain w c request s).0 ≡ connections w
  unfolding answer_open
  connections-answer_open domain request (ok s) = connections-open_hostname request _
  connections-answer_open domain request (err e) = connections-send _

  connections-close :
      (request : HttpClose) → connections (close_forwarding env w c request).0 ≡ connections w
  unfolding close_forwarding send
  connections-close request = ground (arith, connections-release w c request.hostname)

  connections-open_port :
      (lower : Lowercase) (hostnames : Hostnames) (request : PortOpen)
      → connections (open_port lower hostnames env w c request).0 ≡ connections w
  unfolding open_port server register_port
  connections-open_port lower hostnames request = ground arith

  pub connections-msg :
      (lower : Lowercase) (net : Net) (hostnames : Hostnames) (m : Option Message)
      → connections (msg lower net hostnames env w c m).0 ≡ connections w
  unfolding msg Client.port_receive Client.port_close port_message send_http_response
      send_connected_response open_forwarding Port.open_forwarding send
  connections-msg lower net hostnames none = refl
  connections-msg lower net hostnames (some (http_open request)) =
      connections-answer_open hostnames.domain request
        (subdomain_for_forwarding lower hostnames request.hostname)
  connections-msg lower net hostnames (some (http_close request)) = connections-close request
  connections-msg lower net hostnames (some (http_response response)) = ground arith
  connections-msg lower net hostnames (some (port_open request)) =
      ground (arith, connections-open_port lower hostnames request)
  connections-msg lower net hostnames (some (port_connected connected)) = ground arith
  connections-msg lower net hostnames (some (port_receive received)) = ground arith
  connections-msg lower net hostnames (some (port_close closed)) = ground arith
