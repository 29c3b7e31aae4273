-- ===== src/Server/Forward/Laws.antt =====
-- Which status a request that the server forwards must get.
use nport.Prelude.{ℕ, ◌%◌, Option, none, some, Result, ok, err}
use nport.Messages.Client.{HttpPayload, success, error}
use nport.Server.Forward.{Waited, elapsed, dropped, came}

abbrev pub payload_code : Option HttpPayload → ℕ
payload_code none = 500
payload_code (some (error e)) = 502
payload_code (some (success answer)) = answer.status_code % 65536

-- The status that each outcome of a forwarded request must have.
abbrev pub expected : {E : Type 0} → Result E ℕ → Waited → ℕ
expected (err e) waited = 404
expected (ok rx) elapsed = 504
expected (ok rx) dropped = 500
expected (ok rx) (came answer) = payload_code answer.payload
