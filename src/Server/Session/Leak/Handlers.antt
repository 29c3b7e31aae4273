-- ===== src/Server/Session/Leak/Handlers.antt =====
-- nport-server/src/server/msghandlers: every handler keeps the counter of host names in step with
-- the names that are claimed.
use nport.Prelude.{ℕ, ◌≡◌, ◌∙◌, Option, none, some, arith, Bool-cases, Result-cases, inl, inr}
use nport.Text.{Text}
use nport.Text.Lowercase.{Lowercase}
use nport.Addr.Sockets.{Net}
use nport.Messages.Client.{
  Message, HttpOpen, HttpClose, HttpResponse, PortConnected, PortOpen, http_open, http_close,
  http_response, port_open, port_connected, port_receive, port_close,
}
use nport.Messages.Server
use nport.Server.Hostnames.{Hostnames}
use nport.Server.State.{World, PortMessage, bytes, close}
use nport.Server.Env.{Env}
use nport.Server.Client.{
  Error, send, send_http_response, send_connected_response, register_port, port_message,
}
use nport.Server.Client
use nport.Server.Registry.{has_http_hostname}
use nport.Server.Registry.Invariant.{Inv, IsRegistered}
use nport.Server.Registry.Effects.{claimed, claim_result, release_result}
use nport.Server.Forwarding.{subdomain_for_forwarding}
use nport.Server.Msghandlers.Http.{
  open_hostname, answer_open, open_forwarding, close_forwarding, count_hostname, uncount_hostname,
}
use nport.Server.Msghandlers.Port.{open_port, server}
use nport.Server.Msghandlers.Port
use nport.Server.Msghandlers.Http
use nport.Server.Msghandlers.{msg}
use nport.Server.Session.Leak.{
  tally, IsCounted, IsCounted-same, claim-IsCounted, refused-IsCounted, kept-IsCounted,
  release-IsCounted,
}

module _ (env : Env) (w : World) (c : ℕ) where
  tally-send : (m : Server.Message) → tally (send env w c m).0 ≡ tally w
  unfolding send
  tally-send m = ground arith

  tally-port_message :
      (uuid : Text) (m : PortMessage) → tally (port_message env w c uuid m).0 ≡ tally w
  unfolding port_message
  tally-port_message uuid m = ground arith

  send-IsCounted : (m : Server.Message) → IsCounted (tally w) → IsCounted (tally (send env w c m).0)
  send-IsCounted m v = IsCounted-same (tally-send m) v

module _ (env : Env) (w : World) (c : ℕ) (v : IsCounted (tally w)) where
  open_hostname-IsCounted :
      (request : HttpOpen) (h : Text) → IsCounted (tally (open_hostname env w c request h).0)
  unfolding open_hostname
  open_hostname-IsCounted request h =
      let answer = claim_result w c h in
      elim (Bool-cases (claimed w h)) [
        | inl e ↦ rw (answer, e) (send-IsCounted env _ c _ (refused-IsCounted w c h v e))
        | inr e ↦ rw (answer, e) (send-IsCounted env _ c _ (claim-IsCounted w c h v e))
      ]

  close_forwarding-IsCounted :
      (request : HttpClose)
      → Inv w
      → IsRegistered w c
      → IsCounted (tally (close_forwarding env w c request).0)
  unfolding close_forwarding
  close_forwarding-IsCounted request i r =
      let h = request.hostname in
      let answer = release_result w c h in
      elim (Bool-cases (has_http_hostname w c h)) [
        | inl e ↦
            rw (answer, e)
              (send-IsCounted env _ c _ (release-IsCounted w c h v (i.held c h (r, e)) e))
        | inr e ↦ rw (answer, e) (send-IsCounted env _ c _ (kept-IsCounted w c h v e))
      ]

module _ (env : Env) (w : World) (c : ℕ) where
  tally-send_http_response : (m : HttpResponse) → tally (send_http_response env w c m).0 ≡ tally w
  unfolding send_http_response
  tally-send_http_response m = ground arith

  tally-send_connected_response :
      (m : PortConnected) → tally (send_connected_response env w c m).0 ≡ tally w
  unfolding send_connected_response
  tally-send_connected_response m = ground arith

module _ (lower : Lowercase) (hostnames : Hostnames) (env : Env) (w : World) (c : ℕ) where
  tally-open_port : (m : PortOpen) → tally (open_port lower hostnames env w c m).0 ≡ tally w
  unfolding open_port server register_port
  tally-open_port m = ground arith

  tally-open_forwarding :
      (net : Net) (m : PortOpen)
      → tally (Port.open_forwarding lower net hostnames env w c m).0 ≡ tally w
  unfolding Port.open_forwarding
  tally-open_forwarding net m = tally-send env _ c _ ∙ tally-open_port m

  open_forwarding-IsCounted :
      (m : HttpOpen)
      → IsCounted (tally w)
      → IsCounted (tally (Http.open_forwarding env lower hostnames w c m).0)
  unfolding Http.open_forwarding answer_open
  open_forwarding-IsCounted m v =
      elim (Result-cases (subdomain_for_forwarding lower hostnames m.hostname)) [
        | inl (r, e) ↦ rw e (send-IsCounted env w c _ v)
        | inr (s, e) ↦ rw e (open_hostname-IsCounted env w c v m _)
      ]

  pub msg-IsCounted :
      (net : Net) (m : Option Message)
      → Inv w
      → IsRegistered w c
      → IsCounted (tally w)
      → IsCounted (tally (msg lower net hostnames env w c m).0)
  unfolding msg Client.port_receive Client.port_close
  msg-IsCounted net none i r v = v
  msg-IsCounted net (some (http_open m)) i r v = open_forwarding-IsCounted m v
  msg-IsCounted net (some (http_close m)) i r v = close_forwarding-IsCounted env w c v m i r
  msg-IsCounted net (some (http_response m)) i r v =
      IsCounted-same (tally-send_http_response env w c m) v
  msg-IsCounted net (some (port_open m)) i r v = IsCounted-same (tally-open_forwarding net m) v
  msg-IsCounted net (some (port_connected m)) i r v =
      IsCounted-same (tally-send_connected_response env w c m) v
  msg-IsCounted net (some (port_receive m)) i r v =
      IsCounted-same (tally-port_message env w c m.uuid (bytes m.bytes)) v
  msg-IsCounted net (some (port_close m)) i r v =
      IsCounted-same (tally-port_message env w c m.uuid close) v
