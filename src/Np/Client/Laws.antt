-- ===== src/Np/Client/Laws.antt =====
-- What registering and removing HTTP forwardings does to the addresses that requests go to.
use nport.Prelude.{◌≡◌, ap, ◌∙◌, none, some, ok, err, arith, if◌then◌else◌}
use nport.Text.{Text, text_eq}
use nport.Text.Laws.{text_eq_iff, text_eq_refl}
use nport.StringMap.{get-insert, get-remove}
use nport.Addr.{Addr, from_address}
use nport.Messages.Server.{HttpOpened, HttpClosed}
use nport.Np.Error.{http_hostname_already_registered, http_hostname_not_registered}
use nport.Np.Client.{Client, insert_vacant, http_register, http_deregister, http_port}

module _ (client : Client) (msg : HttpOpened) (e : msg.error ≡ none) where
  pub register_vacant :
      http_port client msg.hostname ≡ none
      → ((http_register client msg).1 ≡ ok tt)
        × ((h : Text)
            → http_port (http_register client msg).0 h ≡ (
                if text_eq msg.hostname h
                then some (from_address msg.local_address)
                else http_port client h))
  unfolding http_register insert_vacant http_port
  register_vacant v = (
    ground arith,
    λ h.
        ground (
          arith,
          get-insert h msg.hostname (from_address msg.local_address) client.http_forwardings,
        ),
  )

  register_taken :
      {addr : Addr}
      → http_port client msg.hostname ≡ some addr
      → (http_register client msg).1 ≡ err (http_hostname_already_registered msg.hostname)
  unfolding http_register insert_vacant http_port
  register_taken v = ground arith

  register_taken_same :
      {addr : Addr}
      → http_port client msg.hostname ≡ some addr
      → (h : Text) → http_port (http_register client msg).0 h ≡ http_port client h
  unfolding http_register insert_vacant http_port
  register_taken_same v h = ground arith

module _ (client : Client) (msg : HttpClosed) where
  deregister_known :
      {addr : Addr}
      → http_port client msg.hostname ≡ some addr
      → ((http_deregister client msg).1 ≡ ok tt)
        × ((h : Text)
            → http_port (http_deregister client msg).0 h
              ≡ (if text_eq msg.hostname h then none else http_port client h))
  unfolding http_deregister http_port
  deregister_known v =
      (ground arith, λ h. ground (arith, get-remove h msg.hostname client.http_forwardings))

  deregister_unknown :
      http_port client msg.hostname ≡ none
      → (http_deregister client msg).1 ≡ err (http_hostname_not_registered msg.hostname)
  unfolding http_deregister http_port
  deregister_unknown v = ground arith

-- When np learns that a name without a forwarding was opened, requests for that name go to the
-- address that came with it and all others go where they went. A second opening of the name is
-- refused as long as it is there and changes nothing, and when the name is closed all requests go
-- where they went before.
pub register_deregister :
    (client : Client) (opened again : HttpOpened) (closed : HttpClosed)
    → opened.error ≡ none
    → again.error ≡ none
    → again.hostname ≡ opened.hostname
    → closed.hostname ≡ opened.hostname
    → http_port client opened.hostname ≡ none
    → let client' = (http_register client opened).0 in
      ((http_register client opened).1 ≡ ok tt)
      × ((h : Text)
          → http_port client' h ≡ (
              if text_eq opened.hostname h
              then some (from_address opened.local_address)
              else http_port client h))
      × ((http_register client' again).1 ≡ err (http_hostname_already_registered opened.hostname))
      × ((h : Text) → http_port (http_register client' again).0 h ≡ http_port client' h)
      × ((http_deregister client' closed).1 ≡ ok tt)
      × ((h : Text) → http_port (http_deregister client' closed).0 h ≡ http_port client h)
register_deregister client opened again closed e e' a c v =
    let client' = (http_register client opened).0 in
    let (first, found) = register_vacant client opened e v in
    let here : http_port client' opened.hostname ≡ some (from_address opened.local_address) =
      found opened.hostname ∙ rw (text_eq_refl opened.hostname) in
    let here_again : http_port client' again.hostname ≡ some (from_address opened.local_address) =
      rw a here in
    let here_closed : http_port client' closed.hostname ≡ some (from_address opened.local_address) =
      rw c here in
    let closes = deregister_known client' closed here_closed in
    (
      first,
      found,
      register_taken client' again e' here_again
          ∙ ap (λ h. err (http_hostname_already_registered h)) a,
      register_taken_same client' again e' here_again,
      closes.0,
      λ h. ground (
        arith,
        closes.1 h,
        found h,
        text_eq_iff opened.hostname h,
        text_eq_iff closed.hostname h,
      ),
    )
