-- ===== src/Cert/Generator/Requests.antt =====
-- The order of what a request for a certificate does, and that it cannot hang.
use nport.Prelude.{
  ◌⊎◌, Result, ℕ, suc, ◌+◌, ◌≤◌, ◌≡◌, ◌≢◌, refl, ap, inl, inr, List, [], ◌∷◌, arith, length,
  Option-cases, Result-cases, All, sym, ◌++◌,
}
use nport.Text.{Text, codes}
use nport.Cert.{wildcard_domain}
use nport.Cert.Generator.{
  Wait, seen, timed_out, waiting, Event, updates, looks_up, validates, Turn, Ended, suffix_of,
  challenge_record, confirmed, failed, panicked, again, pending, awaited, authorized, continued,
  round, rounds,
}
use nport.Cert.Generator.Polling.{IsShown, IsPolled, EndsWell, wait_ends}

-- Newest first: a challenge is only validated when a lookup of the record's name has just shown its
-- token, and the wait only ends with such a lookup when the record was just set to that token. `P`
-- holds of the results of these lookups.
abbrev pub IsOrdered : (Result Text (List Text) → Type 0) → Text → List Event → Type 0
IsOrdered P name [] = Unit {0}
IsOrdered P name (updates r t ∷ events) = (r ≡ name) × IsOrdered P name events
IsOrdered P name (looks_up l result ∷ updates r t ∷ events) =
    (l ≡ name) × P result × IsShown t result × (r ≡ name) × IsOrdered P name events
IsOrdered P name (validates t ∷ looks_up l result ∷ updates r u ∷ events) =
    (t ≡ u) × (l ≡ name) × P result × IsShown t result × (r ≡ name) × IsOrdered P name events
IsOrdered P name _ = ⊥

abbrev pub validations : List Event → ℕ
validations [] = 0
validations (validates t ∷ events) = suc (validations events)
validations (_ ∷ events) = validations events

module _ {Csr : Type 0} (P : Result Text (List Text) → Type 0) (name : Text) where
  -- A turn that goes on has validated a challenge, and none is left waiting.
  abbrev Turned : List Event → List Event × Ended Csr → Type 0
  Turned before (after, ended) =
      IsOrdered P name after
      × (ended ≡ again → validations after ≡ suc (validations before))
      × (ended ≢ pending)

  -- `P` holds of the answers during this turn.
  abbrev IsAnswered : Turn Csr → Type 0
  IsAnswered turn = (r : Result Text (List Text)) → IsPolled name turn.polls r → P r

  awaited-Turned :
      (turn : Turn Csr) (token : Text) (events : List Event) (w : Wait)
      → IsOrdered P name events
      → IsAnswered turn
      → EndsWell name token turn.polls w
      → Turned events (awaited turn name token (updates name token ∷ events) w)
  awaited-Turned turn token events (seen elapsed result) o k (shown, p) =
      elim (Result-cases turn.validate) [
        | inl (m, v) ↦ rw v ((refl, refl, k result p, shown, refl, o), λ h. cc, λ h. cc)
        | inr (u, v) ↦ elim (Result-cases turn.refresh) [
          | inl (m, f) ↦ rw (v, f) ((refl, refl, k result p, shown, refl, o), λ h. cc, λ h. cc)
          | inr (x, f) ↦ rw (v, f) ((refl, refl, k result p, shown, refl, o), λ h. refl, λ h. cc)
        ]
      ]
  awaited-Turned turn token events (timed_out elapsed) o k e = ((refl, o), λ h. cc, λ h. cc)
  awaited-Turned turn token events waiting o k e = absurd e

  authorized-Turned :
      (turn : Turn Csr) (events : List Event) (tokens : List Text)
      → 20 ≤ length turn.polls
      → IsAnswered turn
      → IsOrdered P name events
      → Turned events (authorized turn name events tokens)
  authorized-Turned turn events [] l k o = (o, λ h. cc, λ h. cc)
  authorized-Turned turn events (token ∷ tokens) l k o = elim (Result-cases turn.update) [
    | inl (e, u) ↦ rw u ((refl, o), λ h. cc, λ h. cc)
    | inr (x, u) ↦ rw u (awaited-Turned turn token events _ o k (wait_ends name token turn.polls l))
  ]

  round-Turned :
      (turn : Turn Csr) (events : List Event)
      → 20 ≤ length turn.polls
      → IsAnswered turn
      → IsOrdered P name events
      → Turned events (round name turn events)
  unfolding round
  round-Turned turn events l k o = elim (Option-cases turn.confirm_validations) [
    | inr (csr, c) ↦ rw (round, c) (o, λ h. cc, λ h. cc)
    | inl c ↦ elim (Result-cases turn.authorizations) [
      | inl (e, a) ↦ rw (round, c, a) (o, λ h. cc, λ h. cc)
      | inr (tokens, a) ↦ rw (round, c, a) (authorized-Turned turn events tokens l k o)
    ]
  ]

  -- A run of `n` turns.
  abbrev Ran : ℕ → List Event → List Event × Ended Csr → Type 0
  Ran n before (after, ended) =
      IsOrdered P name after
      × (ended ≡ again → validations after ≡ validations before + n)
      × (ended ≢ pending)

  continued-Ran :
      (n : ℕ) (before after : List Event) (rest : List Event × Ended Csr) (ended : Ended Csr)
      → Turned before (after, ended)
      → Ran n after rest
      → Ran (suc n) before (continued after rest ended)
  continued-Ran n before after rest again (o, v, p) (o', v', p') =
      (o', λ h. omega (arith, v refl, v' h), p')
  continued-Ran n before after rest pending (o, v, p) r = (o, λ h. cc, p)
  continued-Ran n before after rest panicked (o, v, p) r = (o, λ h. cc, p)
  continued-Ran n before after rest (confirmed csr) (o, v, p) r = (o, λ h. cc, p)
  continued-Ran n before after rest (failed e) (o, v, p) r = (o, λ h. cc, p)

  rounds-Ran :
      (turns : List (Turn Csr)) (events : List Event)
      → All (λ turn. 20 ≤ length turn.polls) turns
      → All IsAnswered turns
      → IsOrdered P name events
      → Ran (length turns) events (rounds name turns events)
  unfolding rounds
  rounds-Ran [] events a k o = (o, λ h. omega arith, λ h. cc)
  rounds-Ran (turn ∷ turns) events (l, a) (k, more) o =
      let turned = round-Turned turn events l k o in
      continued-Ran (length turns) events _ _ _ turned (rounds-Ran turns _ a more turned.0)

module _ {Csr : Type 0} (name : Text) where
  -- What a lookup of this name gave during one of the turns.
  abbrev pub IsAnswer : List (Turn Csr) → Result Text (List Text) → Type 0
  IsAnswer [] r = ⊥
  IsAnswer (turn ∷ turns) r = IsPolled name turn.polls r ⊎ IsAnswer turns r

  All-answers :
      (P : Result Text (List Text) → Type 0) (turns : List (Turn Csr))
      → ((r : Result Text (List Text)) → IsAnswer turns r → P r)
      → All (λ turn. (r : Result Text (List Text)) → IsPolled name turn.polls r → P r) turns
  All-answers P [] f = tt
  All-answers P (turn ∷ turns) f = (λ r p. f r (inl p), All-answers P turns (λ r a. f r (inr a)))

  -- Whatever ACME, Cloudflare and DNS answer, where each wait gets at least twenty lookups: a
  -- challenge is validated only just after a lookup of the record of that name, one that was made,
  -- has shown its token, and the record was set to that token before; no wait goes on for ever; and
  -- a request that has not ended has validated one challenge in each of its turns.
  pub request_progress :
      (turns : List (Turn Csr))
      → All (λ turn. 20 ≤ length turn.polls) turns
      → IsOrdered (IsAnswer turns) name (rounds name turns []).0
        × ((rounds name turns []).1 ≡ again → validations (rounds name turns []).0 ≡ length turns)
        × ((rounds name turns []).1 ≢ pending)
  request_progress turns a =
      let answered = All-answers (IsAnswer turns) turns (λ r h. h) in
      let (o, v, p) = rounds-Ran (IsAnswer turns) name turns [] a answered tt in
      (o, λ h. omega (arith, v h), p)

-- The certificate of a domain and the one of its wildcard use the same record, one after the other.
pub challenge_record-wildcard_domain :
    (domain : Text)
    → suffix_of domain ≡ domain
    → challenge_record (wildcard_domain domain) ≡ challenge_record domain
unfolding challenge_record suffix_of
challenge_record-wildcard_domain domain e = ap (λ s. codes "_acme-challenge." ++ s) (sym e)
