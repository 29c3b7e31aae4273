-- ===== src/Server/Site/Replies.antt =====
-- websockets.rs and templates.rs: the status that a request gets that the server forwards.
use nport.Prelude.{
  Option, ℕ, ◌%◌, ◌≡◌, ◌⊎◌, refl, true, false, none, some, Result, ok, err, arith, Bool-cases,
  Result-cases, inl, inr,
}
use nport.Text.{Text, codes}
use nport.Messages.Client.{HttpResponseData, HttpPayload, success, error}
use nport.Server.Forward.{
  Headers, ForwardRequestError, no_client, empty_response_payload, timeout, recv, error_response,
  status_code, Waited, elapsed, dropped, came, read_payload, forward_request, Reply, response,
  error_page, filter_headers, reply_with, is_status,
}
use nport.Server.Forward.Handler.{to_string}
use nport.Server.Forward.Laws.{expected, payload_code}
use nport.Server.Site.{Tera, Page, of_error, render_response}
use nport.Server.Site

module _ (tera : Tera) (reason : ℕ → Text) (broken : Text) where
  -- `into_response`: what a reply comes to, the headers of the client's own response aside.
  unfoldable pub into_response : Reply → Page
  into_response (response code headers body) = record { code = code; body = body }
  into_response (error_page code hostname e) = Site.error_page tera reason broken hostname e

  -- The page about an error cannot be rendered.
  abbrev pub IsUnrendered : Text → ForwardRequestError → Type 0
  IsUnrendered hostname e =
      (m : Text) × (tera (codes "error.html")
          (of_error hostname (to_string broken e) (reason (status_code e)))
        ≡ err m)

  page_code :
      (hostname : Text) (e : ForwardRequestError)
      → ((Site.error_page tera reason broken hostname e).code ≡ status_code e)
        ⊎ (IsUnrendered hostname e × ((Site.error_page tera reason broken hostname e).code ≡ 500))
  unfolding Site.error_page render_response
  page_code hostname e =
      elim (Result-cases (
        tera (codes "error.html")
          (of_error hostname (to_string broken e) (reason (status_code e))))) [
            | inl (m, f) ↦ inr ((m, f), ground (arith, f))
            | inr (html, f) ↦ inl (ground (arith, f))
          ]

  is_status-status_code : (e : ForwardRequestError) → is_status (status_code e) ≡ true
  unfolding status_code
  is_status-status_code no_client = refl
  is_status-status_code empty_response_payload = refl
  is_status-status_code timeout = refl
  is_status-status_code recv = refl
  is_status-status_code (error_response e) = refl

  module _ (headers : Headers) (hostname : Text) where
    -- What is proved of one outcome.
    abbrev IsRepliedWith : ℕ → Result ForwardRequestError HttpResponseData → Type 0
    IsRepliedWith code outcome =
        ((reply : Reply) × (reply_with headers hostname outcome ≡ some reply)
          × (is_status code ≡ true)
          × (((into_response reply).code ≡ code)
              ⊎ ((e : ForwardRequestError) × (outcome ≡ err e)
                  × IsUnrendered hostname e
                  × ((into_response reply).code ≡ 500))))
        ⊎ ((reply_with headers hostname outcome ≡ none) × (is_status code ≡ false))

    error_reply : (e : ForwardRequestError) → IsRepliedWith (status_code e) (err e)
    unfolding reply_with into_response
    error_reply e = inl (
      error_page (status_code e) hostname e,
      refl,
      is_status-status_code e,
      elim (page_code hostname e) [ inl h ↦ inl h | inr (f, h) ↦ inr (e, refl, f, h) ],
    )

    payload_reply :
        (payload : Option HttpPayload) → IsRepliedWith (payload_code payload) (read_payload payload)
    unfolding read_payload reply_with into_response status_code
    payload_reply none = error_reply empty_response_payload
    payload_reply (some (error e)) = error_reply (error_response e)
    payload_reply (some (success answer)) =
        let status = answer.status_code % 65536 in
        elim (Bool-cases (is_status status)) [
          | inl e ↦ inl (
            response status (filter_headers headers answer.headers) answer.body,
            ground (arith, e),
            e,
            inl refl,
          )
          | inr e ↦ inr (ground (arith, e), e)
        ]

    -- Every request that is forwarded gets a reply with the code of its outcome: 404 where no client
    -- could be asked, 504 where the client did not answer in time, 500 where the wait broke off or
    -- the answer is empty, 502 where the client reports an error, and otherwise the client's own
    -- status cut to 16 bits. There is a reply exactly if that code is an HTTP status, from 100 to
    -- 999; else the handler panics. The one other exception is an error whose page cannot be
    -- rendered: then the code is 500.
    pub reply_code :
        {E : Type 0} (rx : Result E ℕ) (waited : Waited)
        → let outcome = forward_request rx waited in
          ((reply : Reply) × (reply_with headers hostname outcome ≡ some reply)
            × (is_status (expected rx waited) ≡ true)
            × (((into_response reply).code ≡ expected rx waited)
                ⊎ ((e : ForwardRequestError) × (outcome ≡ err e)
                    × IsUnrendered hostname e
                    × ((into_response reply).code ≡ 500))))
          ⊎ ((reply_with headers hostname outcome ≡ none)
              × (is_status (expected rx waited) ≡ false))
    unfolding forward_request status_code
    reply_code (err e) waited = error_reply no_client
    reply_code (ok rx) elapsed = error_reply timeout
    reply_code (ok rx) dropped = error_reply recv
    reply_code (ok rx) (came answer) = payload_reply answer.payload
