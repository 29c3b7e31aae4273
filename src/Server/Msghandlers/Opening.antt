-- ===== src/Server/Msghandlers/Opening.antt =====
-- What opening and closing an HTTP forwarding does to the owners of the host names, and the answer
-- that np gets.
use nport.Prelude.{
  ℕ, ◌≡◌, refl, ap, ◌∙◌, true, Option, none, some, List, [], ◌∷◌, Result, ok, err, arith, ==_refl,
  if◌then◌else◌, Bool-cases, inl, inr, fun_ext,
}
use nport.Text.{Text}
use nport.Text.Lowercase.{Lowercase}
use nport.Messages.Client.{HttpOpen}
use nport.Messages.Server.{Message, http_opened, HttpOpenError, http_open_error_raw}
use nport.Server.Hostnames.{Hostnames, unwrap_or_default}
use nport.Server.State.{World}
use nport.Server.Env.{Env}
use nport.Server.Client.{send}
use nport.Server.Client.Laws.{SameNames, has_same, send-SameNames}
use nport.Server.Registry.{
  claim_http_hostname, release_http_hostname, add_http_hostname, remove_http_hostname, first_with,
  get_by_http_hostname,
}
use nport.Server.Registry.Invariant.{Inv, IsRegistered}
use nport.Server.Registry.Ownership.{Owners, view, claim, is_free, claim_refines}
use nport.Server.Forwarding.{ValidationError, subdomain_for_forwarding, unwrap_or}
use nport.Server.Msghandlers.Http.{
  open_error, full_hostname, answer_open, open_hostname, open_forwarding, count_hostname,
}

first_with_same :
    {w w' : World}
    → SameNames w w'
    → (h : Text) (cs : List ℕ) → first_with w' h cs ≡ first_with w h cs
unfolding first_with
first_with_same s h [] = refl
first_with_same s h (c ∷ cs) = ground (arith, has_same s c h, first_with_same s h cs)

-- The owners depend on nothing else.
pub view_same : {w w' : World} → SameNames w w' → view w' ≡ view w
unfolding get_by_http_hostname
view_same {w} {w'} s =
    fun_ext
      λ h. ap (λ r. first_with w' h r.clients) s.registry ∙ first_with_same s h w.registry.clients

abbrev pub sent : World → ℕ → List Message
sent w c = (w.client c).sent

sent-claim : (w : World) (c : ℕ) (h : Text) → sent (claim_http_hostname w c h).0 c ≡ sent w c
unfolding claim_http_hostname add_http_hostname
sent-claim w c h = ground arith

pub sent-release :
    (w : World) (c : ℕ) (h : Text) → sent (release_http_hostname w c h).0 c ≡ sent w c
unfolding release_http_hostname remove_http_hostname
sent-release w c h = ground arith

pub sent-send :
    (env : Env) (w : World) (c : ℕ) (m : Message)
    → env.link ≡ true
    → sent (send env w c m).0 c ≡ m ∷ sent w c
unfolding send
sent-send env w c m e = ground (arith, ==_refl c)

-- The answer to `HttpOpen`, and the owners after it, by the outcome of the validation.
abbrev pub opened : HttpOpen → Text → Option HttpOpenError → Message
opened request hostname none =
    http_opened
      (record { hostname = hostname; local_address = request.local_address; error = none })
opened request hostname (some e) = http_opened (record {
  hostname = hostname;
  local_address = request.local_address;
  error = some (http_open_error_raw e);
})

abbrev pub owners_after : Text → Text → ℕ → Owners → Result ValidationError (Option Text) → Owners
owners_after domain generated c o (err e) = o
owners_after domain generated c o (ok s) =
    (claim c (full_hostname domain (unwrap_or s generated)) o).0

abbrev pub answer_to :
    Text → Text → HttpOpen → Owners → Result ValidationError (Option Text) → Message
answer_to domain generated request o (err e) =
    opened request (unwrap_or_default request.hostname) (some (open_error e))
answer_to domain generated request o (ok s) =
    let hostname = full_hostname domain (unwrap_or s generated) in
    opened request hostname (if is_free (o hostname) then none else some HttpOpenError.in_use)

module _ (env : Env) (w : World) (c : ℕ) (v : Inv w) (r : IsRegistered w c) where
  view-open_hostname :
      (request : HttpOpen) (h : Text)
      → view (open_hostname env w c request h).0 ≡ (claim c h (view w)).0
  unfolding open_hostname
  view-open_hostname request h = elim (Bool-cases (claim_http_hostname w c h).1) [
    | inl e ↦
        rw e (
          view_same (send-SameNames env _ c _)
          ∙ view_same (counted _)
          ∙ (claim_refines w c h v r).0)
    | inr e ↦ rw e (view_same (send-SameNames env _ c _) ∙ (claim_refines w c h v r).0)
  ]
    where
      counted : (w : World) → SameNames w (count_hostname w)
      counted w = record { registry = refl; next = refl; names = λ d. refl }

  open_hostname_answer :
      (request : HttpOpen) (h : Text)
      → env.link ≡ true
      → sent (open_hostname env w c request h).0 c
        ≡ opened request h (if is_free (view w h) then none else some HttpOpenError.in_use)
          ∷ sent w c
  unfolding open_hostname
  open_hostname_answer request h link = elim (Bool-cases (is_free (view w h))) [
    | inl e ↦
        let claimed = (claim_refines w c h v r).1 ∙ e in
        rw (claimed, e)
          (sent-send env _ c _ link ∙ ap (◌∷◌ (opened request h none)) (sent-claim w c h))
    | inr e ↦
        let taken = (claim_refines w c h v r).1 ∙ e in
        rw (taken, e)
          (sent-send env _ c _ link
            ∙ ap (◌∷◌ (opened request h (some HttpOpenError.in_use))) (sent-claim w c h))
  ]

  answer_open_lem :
      (domain : Text) (request : HttpOpen) (s : Result ValidationError (Option Text))
      → (view (answer_open env domain w c request s).0
          ≡ owners_after domain env.generated c (view w) s)
        × (env.link ≡ true
            → sent (answer_open env domain w c request s).0 c
              ≡ answer_to domain env.generated request (view w) s ∷ sent w c)
  unfolding answer_open
  answer_open_lem domain request (err e) =
      (view_same (send-SameNames env w c _), λ link. sent-send env w c _ link)
  answer_open_lem domain request (ok s) =
      (view-open_hostname request _, λ link. open_hostname_answer request _ link)

  pub open_forwarding_lem :
      (lower : Lowercase) (hostnames : Hostnames) (request : HttpOpen)
      → let s = subdomain_for_forwarding lower hostnames request.hostname in
        let w' = (open_forwarding env lower hostnames w c request).0 in
        (view w' ≡ owners_after hostnames.domain env.generated c (view w) s)
        × (env.link ≡ true
            → (w'.client c).sent
              ≡ answer_to hostnames.domain env.generated request (view w) s ∷ (w.client c).sent)
  unfolding open_forwarding
  open_forwarding_lem lower hostnames request =
      answer_open_lem hostnames.domain request
        (subdomain_for_forwarding lower hostnames request.hostname)
