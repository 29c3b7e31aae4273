-- ===== src/Cert/Cloudflare.antt =====
-- nport-server/src/cert/cloudflare.rs: the DNS record of a challenge, kept at Cloudflare. The HTTP
-- library and the service are a parameter.
pub mod Laws
mod Tests
use nport.Prelude.{
  ℕ, Bool, true, false, not, ◌&&◌, Option, none, some, List, [], ◌∷◌, ◌++◌, Result, ok, err,
  if◌then◌else◌,
}
use nport.Prelude.Int.{ℤ}
use nport.Text.{Text, codes, text_eq, is_empty}

pub record CreateOrUpdateRequest : Type 0 where
  pub type_name : Text
  pub name : Text
  pub content : Text
  pub ttl : ℕ

pub record ResponseError : Type 0 where
  pub code : ℤ
  pub message : Text

pub record QueryResult : Type 0 where
  pub id : Text
  pub zone_id : Text
  pub name : Text
  pub type_name : Text

pub record QueryResponse : Type 0 where
  pub success : Bool
  pub errors : List ResponseError
  pub result : List QueryResult

pub record CreateOrUpdateResponse : Type 0 where
  pub success : Bool
  pub errors : List ResponseError

pub data Request : Type 0 where
  get : (url authorization : Text) → Request
  put post : (url authorization : Text) (body : CreateOrUpdateRequest) → Request

pub data Error : Type 0 where
  -- An error of the library: the request, or the decoding of the answer.
  failed : Text → Error
  record_not_found : Error
  updating creating : List ResponseError → Error

-- The service on the network. `Zone` is what it keeps; a query leaves that as it is.
pub record Service : Type 1 where
  pub Zone : Type 0
  pub query : Zone → Request → Result Text QueryResponse
  pub change : Zone → Request → Zone × Result Text CreateOrUpdateResponse

pub record Updater : Type 0 where
  pub token : Text
  pub zone_id : Text

abbrev pub get_create_request : Text → Text → CreateOrUpdateRequest
get_create_request record_name challenge = record {
  type_name = codes "TXT";
  name = record_name;
  content = challenge;
  ttl = 60;
}

-- The loop of `get_record_id` over the results.
unfoldable pub first_id : Text → List QueryResult → Result Error Text
first_id record_name [] = err record_not_found
first_id record_name (r ∷ results) =
    if text_eq r.name record_name && text_eq r.type_name (codes "TXT") && not (is_empty r.id)
    then ok r.id
    else first_id record_name results

abbrev pub id_of : Text → Result Text QueryResponse → Result Error Text
id_of record_name (err e) = err (failed e)
id_of record_name (ok body) =
    if body.success then first_id record_name body.result else err record_not_found

abbrev pub check :
    (List ResponseError → Error) → Result Text CreateOrUpdateResponse → Result Error (Unit {0})
check error (err e) = err (failed e)
check error (ok body) = if not body.success then err (error body.errors) else ok tt

module _ (service : Service) (updater : Updater) where
  -- The service, and what was sent to it, the newest first.
  pub record State : Type 0 where
    pub zone : service.Zone
    pub sent : List Request

  abbrev asked : State → Request → State
  asked s request = record s { sent = request ∷ s.sent }

  abbrev changed : (List ResponseError → Error) → State → Request → State × Result Error (Unit {0})
  changed error s request =
      let (zone, reply) = service.change s.zone request in
      (record { zone = zone; sent = request ∷ s.sent }, check error reply)

  abbrev pub query_request : Text → Text → Request
  query_request record_name authorization =
      get
        (codes "https://api.cloudflare.com/client/v4/zones/"
          ++ (updater.zone_id
              ++ (codes "/dns_records?match=all&name=" ++ (record_name ++ codes "&type=TXT"))))
        authorization

  unfoldable pub get_record_id : State → Text → Text → State × Result Error Text
  get_record_id s record_name authorization =
      let request = query_request record_name authorization in
      (asked s request, id_of record_name (service.query s.zone request))

  unfoldable pub update_record : State → Text → Text → Text → Text → State × Result Error (Unit {0})
  update_record s record_name record_id challenge authorization = changed updating s (
      put
        (codes "https://api.cloudflare.com/client/v4/zones/"
          ++ (updater.zone_id ++ (codes "/dns_records/" ++ record_id)))
        authorization (get_create_request record_name challenge))

  unfoldable pub create_record : State → Text → Text → Text → State × Result Error (Unit {0})
  create_record s record_name challenge authorization = changed creating s (
      post
        (codes "https://api.cloudflare.com/client/v4/zones/"
          ++ (updater.zone_id ++ codes "/dns_records"))
        authorization (get_create_request record_name challenge))

  -- `Updater::update`: a record that is there is changed; where there is none, or that fails, one is
  -- made.
  unfoldable pub update : State → Text → Text → State × Result Error (Unit {0})
  update s record_name challenge =
      let authorization = codes "Bearer " ++ updater.token in
      let (s', found) = get_record_id s record_name authorization in
      elim found [
        | err e ↦ create_record s' record_name challenge authorization
        | ok id ↦
            let (s'', result) = update_record s' record_name id challenge authorization in
            elim result [
              | ok _ ↦ (s'', ok tt)
              | err e ↦ create_record s'' record_name challenge authorization
            ]
      ]
