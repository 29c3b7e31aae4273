-- ===== src/Server/Client/Laws.antt =====
-- Requests and responses of one client, and what the operations leave alone.
use nport.Prelude.{
  ℕ, ◌≡◌, ◌≢◌, refl, sym, ap, ◌∙◌, Option, none, some, ◌∷◌, ok, err, arith, ==_refl, if◌then◌else◌,
  Bool-cases, inl, inr,
}
use nport.Text.{Text, text_eq}
use nport.Text.Laws.{text_eq_iff, text_eq_refl}
use nport.StringMap
use nport.StringMap.{get-insert, get-remove}
use nport.StringSet
use nport.Messages.Client.{HttpResponse, PortConnected}
use nport.Messages.Server.{Message}
use nport.Server.State.{World, PortMessage}
use nport.Server.Env.{Env}
use nport.Server.Client.{
  no_request, send, register_http_request, send_http_response, send_connected_response,
  register_port, port_message,
}
use nport.Server.Registry.{has_http_hostname}
use nport.Server.Registry.Invariant.{Inv, Holds}

-- The names, the registered clients and the free addresses are the same.
pub record SameNames (w w' : World) : Type 0 where
  pub registry : w'.registry ≡ w.registry
  pub next : w'.next ≡ w.next
  pub names : (d : ℕ) → (w'.client d).hostnames ≡ (w.client d).hostnames

pub SameNames-refl : (w : World) → SameNames w w
SameNames-refl w = record { registry = refl; next = refl; names = λ d. refl }

pub has_same :
    {w w' : World}
    → SameNames w w'
    → (c : ℕ) (h : Text) → has_http_hostname w' c h ≡ has_http_hostname w c h
unfolding has_http_hostname
has_same s c h = ap (StringSet.contains h) (s.names c)

pub SameNames-Inv : {w w' : World} → SameNames w w' → Inv w → Inv w'
SameNames-Inv {w} {w'} s v = record {
  distinct = λ c. rw s.registry (v.distinct c);
  allocated = λ c r. rw s.next (v.allocated c (rw s.registry at r));
  held = λ c h p. rw s.registry (v.held c h (back c h p));
  owned = λ h k.
      let (c, p) = v.owned h (rw s.registry at k) in (c, (rw s.registry p.0, has_same s c h ∙ p.1));
  unique = λ c d h p q. v.unique c d h (back c h p) (back d h q);
}
  where
    back : (c : ℕ) (h : Text) → Holds w' c h → Holds w c h
    back c h p = (rw s.registry at (p.0), sym (has_same s c h) ∙ p.1)

module _ (env : Env) (w : World) (c : ℕ) where
  pub send-SameNames : (m : Message) → SameNames w (send env w c m).0
  unfolding send
  send-SameNames m = record {
    registry = ground arith;
    next = ground arith;
    names = λ d. ground arith;
  }

  pub send_http_response-SameNames :
      (r : HttpResponse) → SameNames w (send_http_response env w c r).0
  unfolding send_http_response
  send_http_response-SameNames r = record {
    registry = ground arith;
    next = ground arith;
    names = λ d. ground arith;
  }

  pub send_connected_response-SameNames :
      (r : PortConnected) → SameNames w (send_connected_response env w c r).0
  unfolding send_connected_response
  send_connected_response-SameNames r = record {
    registry = ground arith;
    next = ground arith;
    names = λ d. ground arith;
  }

  pub register_port-SameNames : (port : ℕ) → SameNames w (register_port env w c port)
  unfolding register_port
  register_port-SameNames port = record { registry = refl; next = refl; names = λ d. ground arith }

  pub port_message-SameNames :
      (uuid : Text) (m : PortMessage) → SameNames w (port_message env w c uuid m).0
  unfolding port_message
  port_message-SameNames uuid m = record {
    registry = ground arith;
    next = ground arith;
    names = λ d. ground arith;
  }

abbrev pub pending : World → ℕ → Text → Option ℕ
pending w c uuid = StringMap.get uuid (w.client c).http_requests

module _ (env : Env) (w : World) (c : ℕ) where
  pub pending-register_http_request :
      (id : Text) (channel : ℕ) (uuid : Text)
      → pending (register_http_request env w c id channel) c uuid
        ≡ (if text_eq id uuid then some channel else pending w c uuid)
  unfolding register_http_request
  pending-register_http_request id channel uuid =
      ground (arith, get-insert uuid id channel (w.client c).http_requests, ==_refl c)

  module _ (r : HttpResponse) where
    pub send_known :
        {channel : ℕ}
        → pending w c r.uuid ≡ some channel
        → ((send_http_response env w c r).1 ≡ ok tt)
          × ((send_http_response env w c r).0.http_responses ≡ (channel, r) ∷ w.http_responses)
    unfolding send_http_response
    send_known e = ground arith

    send_unknown :
        pending w c r.uuid ≡ none
        → ((send_http_response env w c r).1 ≡ err no_request)
          × ((send_http_response env w c r).0.http_responses ≡ w.http_responses)
    unfolding send_http_response
    send_unknown e = ground arith

    pub pending-send_http_response :
        (uuid : Text)
        → pending (send_http_response env w c r).0 c uuid
          ≡ (if text_eq r.uuid uuid then none else pending w c uuid)
    unfolding send_http_response
    pending-send_http_response uuid =
        ground (arith, get-remove uuid r.uuid (w.client c).http_requests, ==_refl c)

-- A response whose uuid is pending goes into the channel that was registered under it. A response
-- under that uuid that comes next is refused and reaches no channel; the other uuids stay pending.
pub send_http_response_once :
    (env : Env) (w : World) (c channel : ℕ) (r again : HttpResponse)
    → pending w c r.uuid ≡ some channel
    → again.uuid ≡ r.uuid
    → let w' = (send_http_response env w c r).0 in
      ((send_http_response env w c r).1 ≡ ok tt)
      × (w'.http_responses ≡ (channel, r) ∷ w.http_responses)
      × ((send_http_response env w' c again).1 ≡ err no_request)
      × ((send_http_response env w' c again).0.http_responses ≡ w'.http_responses)
      × ((uuid : Text) → uuid ≢ r.uuid → pending w' c uuid ≡ pending w c uuid)
send_http_response_once env w c channel r again e same =
    let w' = (send_http_response env w c r).0 in
    let gone : pending w' c again.uuid ≡ none =
      rw same (pending-send_http_response env w c r r.uuid ∙ rw (text_eq_refl r.uuid)) in
    let first = send_known env w c r e in
    let second = send_unknown env w' c again gone in
    (
      first.0,
      first.1,
      second.0,
      second.1,
      λ uuid n.
          pending-send_http_response env w c r uuid ∙ elim (Bool-cases (text_eq r.uuid uuid)) [
            | inl p ↦ absurd (n (sym ((text_eq_iff r.uuid uuid).0 p)))
            | inr p ↦ rw p
          ],
    )
