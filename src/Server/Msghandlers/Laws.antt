-- ===== src/Server/Msghandlers/Laws.antt =====
-- Every handler keeps the registry well formed; what opening an HTTP forwarding does and answers.
use nport.Prelude.{
  ℕ, ◌≡◌, refl, ap, ◌∙◌, Option, none, some, Result, ok, err, arith, Bool-cases, inl, inr,
}
use nport.Text.{Text}
use nport.Text.Lowercase.{Lowercase}
use nport.Addr.Sockets.{Net}
use nport.Messages.Client.{
  Message, HttpOpen, HttpClose, PortOpen, http_open, http_close, http_response, port_open,
  port_connected, port_receive, port_close,
}
use nport.Server.Hostnames.{Hostnames}
use nport.Server.State.{World, bytes, close}
use nport.Server.Env.{Env}
use nport.Server.Client.{
  Error, send, send_http_response, send_connected_response, register_port, port_message,
}
use nport.Server.Client
use nport.Server.Client.Laws.{
  SameNames, SameNames-refl, SameNames-Inv, send-SameNames, send_http_response-SameNames,
  send_connected_response-SameNames, port_message-SameNames,
}
use nport.Server.Registry.{claim_http_hostname, release_http_hostname}
use nport.Server.Registry.Invariant.{Inv, IsRegistered}
use nport.Server.Registry.Effects.{clients-claim, clients-release}
use nport.Server.Registry.Preservation.{claim-Inv, release-Inv}
use nport.Server.Forwarding.{ValidationError, subdomain_for_forwarding}
use nport.Server.Msghandlers.Http.{
  answer_open, open_hostname, open_forwarding, close_forwarding, count_hostname, uncount_hostname,
}
use nport.Server.Msghandlers.Port.{open_port, server, count_port}
use nport.Server.Msghandlers.Port
use nport.Server.Msghandlers.{msg}

-- The invariant holds after, and the same clients are registered.
pub record Keeps (w w' : World) : Type 0 where
  pub inv : Inv w'
  pub clients : w'.registry.clients ≡ w.registry.clients

Keeps-same : {w w' : World} → SameNames w w' → Inv w → Keeps w w'
Keeps-same s v = record { inv = SameNames-Inv s v; clients = ap (λ r. r.clients) s.registry }

Keeps-then : {w w' w'' : World} → Keeps w w' → SameNames w' w'' → Keeps w w''
Keeps-then k s = record {
  inv = SameNames-Inv s k.inv;
  clients = ap (λ r. r.clients) s.registry ∙ k.clients;
}

counted : (w : World) → SameNames w (count_hostname w)
counted w = record { registry = refl; next = refl; names = λ d. refl }

uncounted : (w : World) → SameNames w (uncount_hostname w)
uncounted w = record { registry = refl; next = refl; names = λ d. refl }

SameNames-trans : {u v w : World} → SameNames u v → SameNames v w → SameNames u w
SameNames-trans s t = record {
  registry = t.registry ∙ s.registry;
  next = t.next ∙ s.next;
  names = λ d. t.names d ∙ s.names d;
}

module _ (env : Env) (w : World) (c : ℕ) (v : Inv w) (r : IsRegistered w c) where
  claim-Keeps : (h : Text) → Keeps w (claim_http_hostname w c h).0
  claim-Keeps h = record { inv = claim-Inv w c h v r; clients = clients-claim w c h }

  release-Keeps : (h : Text) → Keeps w (release_http_hostname w c h).0
  release-Keeps h = record { inv = release-Inv w c h v r; clients = clients-release w c h }

  pub open_hostname-Keeps :
      (request : HttpOpen) (h : Text) → Keeps w (open_hostname env w c request h).0
  unfolding open_hostname
  open_hostname-Keeps request h = elim (Bool-cases (claim_http_hostname w c h).1) [
    | inl e ↦
        rw e (Keeps-then (claim-Keeps h) (SameNames-trans (counted _) (send-SameNames env _ c _)))
    | inr e ↦ rw e (Keeps-then (claim-Keeps h) (send-SameNames env _ c _))
  ]

  close_forwarding-Keeps : (request : HttpClose) → Keeps w (close_forwarding env w c request).0
  unfolding close_forwarding
  close_forwarding-Keeps request =
      elim (Bool-cases (release_http_hostname w c request.hostname).1) [
        | inl e ↦ rw e (
            Keeps-then (release-Keeps request.hostname)
              (SameNames-trans (uncounted _) (send-SameNames env _ c _)))
        | inr e ↦ rw e (Keeps-then (release-Keeps request.hostname) (send-SameNames env _ c _))
      ]

  answer_open-Keeps :
      (domain : Text) (request : HttpOpen) (subdomain : Result ValidationError (Option Text))
      → Keeps w (answer_open env domain w c request subdomain).0
  unfolding answer_open
  answer_open-Keeps domain request (ok subdomain) = open_hostname-Keeps request _
  answer_open-Keeps domain request (err e) = Keeps-same (send-SameNames env w c _) v

open_port-SameNames :
    (lower : Lowercase) (hostnames : Hostnames) (env : Env) (w : World) (c : ℕ) (request : PortOpen)
    → SameNames w (open_port lower hostnames env w c request).0
unfolding open_port server register_port
open_port-SameNames lower hostnames env w c request = record {
  registry = ground arith;
  next = ground arith;
  names = λ d. ground arith;
}

module _ (lower : Lowercase) (net : Net) (hostnames : Hostnames) where
  pub open_tcp-SameNames :
      (env : Env) (w : World) (c : ℕ) (request : PortOpen)
      → SameNames w (Port.open_forwarding lower net hostnames env w c request).0
  unfolding Port.open_forwarding
  open_tcp-SameNames env w c request =
      SameNames-trans (open_port-SameNames lower hostnames env w c request)
        (send-SameNames env _ c _)

  msg-Keeps :
      (env : Env) (w : World) (c : ℕ) (m : Option Message)
      → Inv w
      → IsRegistered w c
      → Keeps w (msg lower net hostnames env w c m).0
  unfolding msg open_forwarding Client.port_receive Client.port_close
  msg-Keeps env w c none v r = Keeps-same (SameNames-refl w) v
  msg-Keeps env w c (some (http_open request)) v r =
      answer_open-Keeps env w c v r hostnames.domain request
        (subdomain_for_forwarding lower hostnames request.hostname)
  msg-Keeps env w c (some (http_close request)) v r = close_forwarding-Keeps env w c v r request
  msg-Keeps env w c (some (http_response response)) v r =
      Keeps-same (send_http_response-SameNames env w c response) v
  msg-Keeps env w c (some (port_open request)) v r =
      Keeps-same (open_tcp-SameNames env w c request) v
  msg-Keeps env w c (some (port_connected connected)) v r =
      Keeps-same (send_connected_response-SameNames env w c connected) v
  msg-Keeps env w c (some (port_receive received)) v r =
      Keeps-same (port_message-SameNames env w c received.uuid (bytes received.bytes)) v
  msg-Keeps env w c (some (port_close closed)) v r =
      Keeps-same (port_message-SameNames env w c closed.uuid close) v

  -- Whatever message a registered client sends, and whether or not its handler succeeds, the
  -- registry stays well formed and the same clients stay registered.
  pub msg-Inv :
      (env : Env) (w : World) (c : ℕ) (m : Option Message)
      → Inv w
      → IsRegistered w c
      → Inv (msg lower net hostnames env w c m).0
        × ((msg lower net hostnames env w c m).0.registry.clients ≡ w.registry.clients)
  msg-Inv env w c m v r = let k = msg-Keeps env w c m v r in (k.inv, k.clients)
