-- ===== src/Cert/Generator/Polling.antt =====
-- The wait for the DNS record ends.
use nport.Prelude.{
  ℕ, ◌+◌, ◌*◌, ◌/◌, ◌≤◌, ◌<◌, ◌≡◌, refl, inl, inr, true, false, List, [], ◌∷◌, arith, length,
  Bool-cases, Result, ok, err, All, ap, any, ltb, ◌++◌, ◌⊎◌,
}
use nport.Text.{Text, text_eq}
use nport.Text.Laws.{text_eq_iff}
use nport.Cert.Generator.{Poll, is_seen, propagation_step, Wait, seen, timed_out, waiting, wait}

-- The lookup succeeded, and the token is one of the records.
abbrev pub IsIn : Text → List Text → Type 0
IsIn token [] = ⊥
IsIn token (r ∷ records) = (r ≡ token) ⊎ IsIn token records

abbrev pub IsShown : Text → Result Text (List Text) → Type 0
IsShown token (err e) = ⊥
IsShown token (ok records) = IsIn token records

is_in :
    (token : Text) (records : List Text)
    → any (λ r. text_eq r token) records ≡ true
    → IsIn token records
is_in token [] e = absurd (ground (arith, e))
is_in token (r ∷ records) e = elim (Bool-cases (text_eq r token)) [
  | inl s ↦ inl ((text_eq_iff r token).0 s)
  | inr s ↦ inr (is_in token records (ground (arith, e, s)))
]

is_not_in :
    (token : Text) (records : List Text)
    → any (λ r. text_eq r token) records ≡ false
    → IsIn token records
    → ⊥
is_not_in token [] e i = i
is_not_in token (r ∷ records) e (inl s) = ground (arith, e, text_eq_iff r token, s)
is_not_in token (r ∷ records) e (inr i) = is_not_in token records (ground (arith, e)) i

seen_lem :
    (token : Text) (result : Result Text (List Text))
    → is_seen token result ≡ true
    → IsShown token result
seen_lem token (err e) s = absurd (ground (arith, s))
seen_lem token (ok records) s = is_in token records s

unseen_lem :
    (token : Text) (result : Result Text (List Text))
    → is_seen token result ≡ false
    → IsShown token result
    → ⊥
unseen_lem token (err e) s i = i
unseen_lem token (ok records) s i = is_not_in token records s i

-- The lookup of this name does not show the token.
abbrev pub IsHidden : (name token : Text) → Poll → Type 0
IsHidden name token poll = IsShown token (poll.txt_lookup name) → ⊥

-- One of the lookups of this name has this result.
abbrev pub IsPolled : (name : Text) → List Poll → Result Text (List Text) → Type 0
IsPolled name [] result = ⊥
IsPolled name (poll ∷ polls) result = (poll.txt_lookup name ≡ result) ⊎ IsPolled name polls result

-- How the wait ends: with a lookup that shows the token; or 91 seconds or more after its start, with
-- lookups that do not show it.
abbrev pub EndsWell : (name token : Text) → List Poll → Wait → Type 0
EndsWell name token polls (seen elapsed result) = IsShown token result × IsPolled name polls result
EndsWell name token polls (timed_out elapsed) =
    (91 * 1000 ≤ elapsed)
    × (tried : List Poll) × (others : List Poll) × (polls ≡ tried ++ others)
    × (0 < length tried)
    × All (IsHidden name token) tried
EndsWell name token polls waiting = ⊥

EndsWell-later :
    (name token : Text) (poll : Poll) (polls : List Poll) (w : Wait)
    → IsHidden name token poll
    → EndsWell name token polls w
    → EndsWell name token (poll ∷ polls) w
EndsWell-later name token poll polls (seen elapsed result) n (s, p) = (s, inr p)
EndsWell-later name token poll polls (timed_out elapsed) n (late, tried, others, q, p, a) =
    (late, poll ∷ tried, others, ap (◌∷◌ poll) q, omega (arith, p), (n, a))
EndsWell-later name token poll polls waiting n e = e

wait_from :
    (name token : Text) (elapsed : ℕ) (polls : List Poll)
    → 96000 ≤ elapsed + length polls * propagation_step
    → elapsed < 96000
    → EndsWell name token polls (wait name token elapsed polls)
unfolding wait
wait_from name token elapsed [] h p = absurd (omega (arith, h, p))
wait_from name token elapsed (poll ∷ polls) h p =
    let result = poll.txt_lookup name in
    elim (Bool-cases (is_seen token result)) [
      | inl e ↦ rw (wait, e) (seen_lem token result e, inl refl)
      | inr e ↦
          let hidden : IsHidden name token poll = unseen_lem token result e in
          elim (Bool-cases (ltb 90 ((elapsed + poll.took) / 1000))) [
            | inl l ↦
                rw (wait, e, l)
                  (ground (arith, l), poll ∷ [], polls, refl, omega arith, (hidden, tt))
            | inr l ↦
                rw (wait, e, l)
                  (EndsWell-later name token poll polls _ hidden (
                    wait_from name token (elapsed + poll.took + propagation_step) polls
                      (omega (arith, h)) (ground (arith, l))))
          ]
    ]

-- The wait for the DNS record ends within twenty lookups, however long each takes: with one that
-- shows the token, or with an error, 91 seconds or more after its start, when none has shown it.
pub wait_ends :
    (name token : Text) (polls : List Poll)
    → 20 ≤ length polls
    → EndsWell name token polls (wait name token 0 polls)
wait_ends name token polls h = wait_from name token 0 polls (omega (arith, h)) (omega arith)
