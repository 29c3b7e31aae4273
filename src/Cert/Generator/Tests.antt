-- ===== src/Cert/Generator/Tests.antt =====
-- A challenge whose record is seen at the first lookup.
use nport.Prelude.{ℕ, ◌≡◌, ◌≢◌, none, List, [], ◌∷◌, ok, arith, length}
use nport.Text.{Text, codes}
use nport.Cert.Generator.{Poll, Turn, rounds, again, pending, challenge_record}
use nport.Cert.Generator.Requests.{IsOrdered, IsAnswer, validations, request_progress}

abbrev lookup : Poll
lookup = record { took = 40; txt_lookup = λ name. ok (codes "token" ∷ []) }

abbrev repeated : ℕ → List Poll
repeated ℕ.zero = []
repeated (ℕ.suc n) = lookup ∷ repeated n

abbrev turns : List (Turn Text)
turns =
    record {
      confirm_validations = none;
      authorizations = ok (codes "token" ∷ []);
      update = ok tt;
      polls = repeated 20;
      validate = ok tt;
      refresh = ok tt;
    }
    ∷ []

request_progress_example :
    IsOrdered
      (IsAnswer (challenge_record (codes "nport.io")) turns)
      (challenge_record (codes "nport.io"))
      (rounds (challenge_record (codes "nport.io")) turns []).0
    × ((rounds (challenge_record (codes "nport.io")) turns []).1 ≡ again
        → validations (rounds (challenge_record (codes "nport.io")) turns []).0 ≡ length turns)
    × ((rounds (challenge_record (codes "nport.io")) turns []).1 ≢ pending)
request_progress_example =
    request_progress (challenge_record (codes "nport.io")) turns (omega arith, tt)
