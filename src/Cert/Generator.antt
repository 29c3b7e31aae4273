-- ===== src/Cert/Generator.antt =====
-- nport-server/src/cert/generator.rs: a certificate from an ACME service by its DNS challenge. The
-- ACME library, the resolver and the clock are parameters.
pub mod Polling
pub mod Requests
mod Tests
use nport.Prelude.{
  ℕ, ◌+◌, ◌/◌, ◌>>◌, Bool, true, false, Option, none, some, List, [], ◌∷◌, ◌++◌, Result, ok, err,
  any, ltb, ◌==◌, ◌&&◌, if◌then◌else◌,
}
use nport.Text.{Text, codes, text_eq}

abbrev pub letter_or : ℕ → ℕ → Text → Text → Text
letter_or a b rest domain = if a == b'*' && b == b'.' then rest else domain

-- `starts_with("*.")`, and the slice after it.
unfoldable pub suffix_of : Text → Text
suffix_of [] = []
suffix_of (a ∷ []) = a ∷ []
suffix_of (a ∷ b ∷ rest) = letter_or a b rest (a ∷ b ∷ rest)

-- The name of the DNS record.
unfoldable pub challenge_record : Text → Text
challenge_record domain = codes "_acme-challenge." ++ suffix_of domain

-- One turn of the loop that waits for the DNS record: how many milliseconds the lookup takes, and
-- what `txt_lookup` gives for each name then.
pub record Poll : Type 0 where
  pub took : ℕ
  pub txt_lookup : Text → Result Text (List Text)

abbrev pub propagation_step : ℕ
propagation_step = 5000

abbrev pub is_seen : Text → Result Text (List Text) → Bool
is_seen token (err e) = false
is_seen token (ok records) = any (λ r. text_eq r token) records

-- How the wait ends: with the result of the last lookup, or with an error after more than 90 seconds; or it still goes
-- on after these turns. `elapsed` is the time since its start.
pub data Wait : Type 0 where
  seen : (elapsed : ℕ) (result : Result Text (List Text)) → Wait
  timed_out : (elapsed : ℕ) → Wait
  waiting : Wait

unfoldable pub wait : (record_name token : Text) → ℕ → List Poll → Wait
wait record_name token elapsed [] = waiting
wait record_name token elapsed (poll ∷ polls) =
    let later = elapsed + poll.took in
    let result = poll.txt_lookup record_name in
    let rest = wait record_name token (later + propagation_step) polls in
    if is_seen token result
    then seen (later + propagation_step) result
    else if ltb 90 (later / 1000)
    then timed_out later
    else rest

-- What `request` does to the world outside, and sees of it.
pub data Event : Type 0 where
  updates : (record_name token : Text) → Event
  -- The lookup that ends the wait, with its result.
  looks_up : (record_name : Text) (result : Result Text (List Text)) → Event
  validates : (token : Text) → Event

-- The answers during one turn of the loop over the order; an authorization is the token of its DNS
-- challenge.
pub record Turn (Csr : Type 0) : Type 0 where
  pub confirm_validations : Option Csr
  pub authorizations : Result Text (List Text)
  pub update : Result Text (Unit {0})
  pub polls : List Poll
  pub validate : Result Text (Unit {0})
  pub refresh : Result Text (Unit {0})

-- How the loop ends. `panicked` is an order without an authorization; where it has not ended, `again`
-- is that the next turn follows, and `pending` that it is waiting for the record.
pub data Ended (Csr : Type 0) : Type 0 where
  confirmed : Csr → Ended Csr
  failed : Text → Ended Csr
  panicked again pending : Ended Csr

module _ {Csr : Type 0} where
  -- After the record was seen.
  abbrev pub validated : Turn Csr → Text → List Event → List Event × Ended Csr
  validated turn token events = elim turn.validate [
    | err e ↦ (validates token ∷ events, failed e)
    | ok _ ↦ elim turn.refresh [
      | err e ↦ (validates token ∷ events, failed e)
      | ok _ ↦ (validates token ∷ events, again)
    ]
  ]

  abbrev pub awaited : Turn Csr → Text → Text → List Event → Wait → List Event × Ended Csr
  awaited turn record_name token events (seen elapsed result) =
      validated turn token (looks_up record_name result ∷ events)
  awaited turn record_name token events (timed_out elapsed) =
      (events, failed (codes "DNS update timed out"))
  awaited turn record_name token events waiting = (events, pending)

  abbrev challenged : Turn Csr → Text → Text → List Event → List Event × Ended Csr
  challenged turn record_name token events = elim turn.update [
    | err e ↦ (updates record_name token ∷ events, failed e)
    | ok _ ↦
        awaited turn record_name token (updates record_name token ∷ events)
          (wait record_name token 0 turn.polls)
  ]

  abbrev pub authorized : Turn Csr → Text → List Event → List Text → List Event × Ended Csr
  authorized turn record_name events [] = (events, panicked)
  authorized turn record_name events (token ∷ tokens) = challenged turn record_name token events

  -- One turn.
  unfoldable pub round : Text → Turn Csr → List Event → List Event × Ended Csr
  round record_name turn events = elim turn.confirm_validations [
    | some csr ↦ (events, confirmed csr)
    | none ↦ elim turn.authorizations [
      | err e ↦ (events, failed e)
      | ok tokens ↦ authorized turn record_name events tokens
    ]
  ]

  -- What follows a turn that ended like this: `rest` where there is a next one.
  abbrev pub continued : List Event → List Event × Ended Csr → Ended Csr → List Event × Ended Csr
  continued events rest again = rest
  continued events rest pending = (events, pending)
  continued events rest panicked = (events, panicked)
  continued events rest (confirmed csr) = (events, confirmed csr)
  continued events rest (failed e) = (events, failed e)

  unfoldable pub rounds : Text → List (Turn Csr) → List Event → List Event × Ended Csr
  rounds record_name [] events = (events, again)
  rounds record_name (turn ∷ turns) events =
      let (later, ended) = round record_name turn events in
      continued later (rounds record_name turns later) ended

pub data DirectoryUrl : Type 0 where
  lets_encrypt lets_encrypt_staging : DirectoryUrl

pub record Generator : Type 0 where
  pub email : Text
  pub persist_dir : Text
  pub staging : Bool

-- The ACME library, but for the order.
pub record Acme (Csr Certificate : Type 0) : Type 0 where
  pub directory : Text → DirectoryUrl → Result Text (Unit {0})
  pub account : Text → Result Text (Unit {0})
  pub new_order : Text → Result Text (Unit {0})
  -- `finalize_pkey` with a new key.
  pub finalize : Csr → Result Text (Unit {0})
  pub download_and_save_cert : Csr → Result Text Certificate

module _ {Csr Certificate : Type 0} (acme : Acme Csr Certificate) where
  abbrev pub ended_with : Ended Csr → Option (Result Text Certificate)
  ended_with (confirmed csr) = some (acme.finalize csr >> acme.download_and_save_cert csr)
  ended_with (failed e) = some (err e)
  ended_with panicked = none
  ended_with again = none
  ended_with pending = none

  -- `request`: `none` is the panic, or that the loop still goes on.
  unfoldable pub request :
      Generator → Text → List (Turn Csr) → List Event × Option (Result Text Certificate)
  request generator domain turns =
      elim (acme.directory generator.persist_dir
          (if generator.staging then lets_encrypt_staging else lets_encrypt)
        >> acme.account generator.email
        >> acme.new_order domain) [
          | err e ↦ ([], some (err e))
          | ok _ ↦
              let (events, ended) = rounds (challenge_record domain) turns [] in
              (events, ended_with ended)
        ]
