-- ===== src/Cert/Cloudflare/Tests.antt =====
-- A zone that keeps what it is sent.
use nport.Prelude.{◌+◌, ◌≡◌, refl, true, ◌⊎◌, List, [], ◌∷◌, Result, ok, err, length}
use nport.Text.{Text, codes}
use nport.Cert.Cloudflare.{
  CreateOrUpdateRequest, CreateOrUpdateResponse, Request, get, put, post, Error, Service, Updater,
  State, create_record, update,
}
use nport.Cert.Cloudflare.Laws.{IsDocumented, update_publishes}

abbrev done : Result Text CreateOrUpdateResponse
done = ok (record { success = true; errors = [] })

abbrev store :
    List CreateOrUpdateRequest
    → Request
    → List CreateOrUpdateRequest × Result Text CreateOrUpdateResponse
store zone (get url authorization) = (zone, done)
store zone (put url authorization body) = (body ∷ zone, done)
store zone (post url authorization body) = (body ∷ zone, done)

abbrev service : Service
service = record {
  Zone = List CreateOrUpdateRequest;
  query = λ zone request. ok (record { success = true; errors = []; result = [] });
  change = store;
}

abbrev updater : Updater
updater = record { token = codes "secret"; zone_id = codes "z1" }

-- The newest record.
abbrev IsNewest : List CreateOrUpdateRequest → Text → Text → Text → Type 0
IsNewest zone type_name name content =
    (body : CreateOrUpdateRequest) × (rest : List CreateOrUpdateRequest) × (zone ≡ body ∷ rest)
    × (body.type_name ≡ type_name)
    × (body.name ≡ name)
    × (body.content ≡ content)

abbrev documented : IsDocumented service updater
documented = record {
  Has = IsNewest;
  put_has = λ zone id body reply e k. (body, zone, refl, refl, refl, refl);
  post_has = λ zone body reply e k. (body, zone, refl, refl, refl, refl);
}

abbrev before : State service updater
before = record { zone = []; sent = [] }

update_publishes_example :
    ((update service updater before (codes "_acme-challenge.nport.io") (codes "token")).1 ≡ ok tt
      → IsNewest
          (update service updater before (codes "_acme-challenge.nport.io") (codes "token")).0.zone
          (codes "TXT")
          (codes "_acme-challenge.nport.io")
          (codes "token"))
    × ((e : Error)
        → (update service updater before (codes "_acme-challenge.nport.io") (codes "token")).1
          ≡ err e
        → (t : State service updater) × (create_record service updater t
              (codes "_acme-challenge.nport.io")
              (codes "token")
              (codes "Bearer secret")
            ≡ (
              (update service updater before (codes "_acme-challenge.nport.io") (codes "token")).0,
              err e,
            )))
    × ((length
            (update service updater before
              (codes "_acme-challenge.nport.io")
              (codes "token")).0.sent
          ≡ length before.sent + 2)
        ⊎ (length
              (update service updater before
                (codes "_acme-challenge.nport.io")
                (codes "token")).0.sent
            ≡ length before.sent + 3))
update_publishes_example =
    update_publishes service updater documented before (codes "_acme-challenge.nport.io")
      (codes "token")
