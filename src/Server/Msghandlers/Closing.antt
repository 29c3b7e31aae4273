-- ===== src/Server/Msghandlers/Closing.antt =====
-- nport-server/src/server/msghandlers/http.rs: what closing an HTTP forwarding does.
use nport.Prelude.{ℕ, ◌≡◌, refl, ◌∙◌, ap, Bool, true, false, none, some, ◌∷◌, Bool-cases, inl, inr}
use nport.Text.{Text}
use nport.Messages.Client.{HttpClose}
use nport.Messages.Server.{Message, http_closed, http_close_error_raw, not_registered}
use nport.Server.State.{World}
use nport.Server.Env.{Env}
use nport.Server.Client.Laws.{SameNames, send-SameNames}
use nport.Server.Registry.Invariant.{Inv, IsRegistered}
use nport.Server.Registry.Ownership.{view, release, is_owner, release_refines}
use nport.Server.Msghandlers.Http.{close_forwarding, uncount_hostname}
use nport.Server.Msghandlers.Opening.{view_same, sent-release, sent-send}

abbrev pub closed : Text → Bool → Message
closed hostname true = http_closed (record { hostname = hostname; error = none })
closed hostname false =
    http_closed (record { hostname = hostname; error = some (http_close_error_raw not_registered) })

uncounted : (w : World) → SameNames w (uncount_hostname w)
uncounted w = record { registry = refl; next = refl; names = λ d. refl }

module _ (env : Env) (w : World) (c : ℕ) (v : Inv w) (r : IsRegistered w c) where
  -- `HttpClose` from a registered client frees the name if the client owns it and changes no owner
  -- otherwise. Where the websocket takes it, the answer says `NotRegistered` exactly if the client
  -- does not own the name, also when another client does.
  pub close_forwarding_lem :
      (request : HttpClose)
      → let w' = (close_forwarding env w c request).0 in
        (view w' ≡ (release c request.hostname (view w)).0)
        × (env.link ≡ true
            → (w'.client c).sent
              ≡ closed request.hostname (is_owner c (view w request.hostname)) ∷ (w.client c).sent)
  unfolding close_forwarding
  close_forwarding_lem request = elim (Bool-cases (is_owner c (view w request.hostname))) [
    | inl e ↦
        let (owners, found) = release_refines w c request.hostname v r in
        rw (found, e)
          (
            view_same (send-SameNames env _ c _) ∙ view_same (uncounted _) ∙ owners,
            λ link.
                sent-send env _ c _ link
                ∙ ap (◌∷◌ (closed request.hostname true)) (sent-release w c request.hostname),
          )
    | inr e ↦
        let (owners, found) = release_refines w c request.hostname v r in
        rw (found, e)
          (
            view_same (send-SameNames env _ c _) ∙ owners,
            λ link.
                sent-send env _ c _ link
                ∙ ap (◌∷◌ (closed request.hostname false)) (sent-release w c request.hostname),
          )
  ]
