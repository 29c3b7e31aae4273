-- ===== src/Cert/Cloudflare/Laws.antt =====
-- What `update` achieves at a service that does as it is documented.
use nport.Prelude.{
  ◌≡◌, refl, ap, true, ◌⊎◌, inl, inr, List, ◌++◌, Result, ok, err, arith, Result-cases,
  append_assoc, length, subst, ◌+◌,
}
use nport.Text.{Text, codes}
use nport.Cert.Cloudflare.{
  CreateOrUpdateRequest, CreateOrUpdateResponse, put, post, Error, Service, Updater, State,
  get_record_id, update_record, create_record, update, check, get_create_request,
}

-- The records of the zone, in the interface of Cloudflare.
abbrev pub records_url : Text → Text
records_url zone_id =
    codes "https://api.cloudflare.com/client/v4/zones/" ++ (zone_id ++ codes "/dns_records")

-- What the service documents: a `PUT` to a record, or a `POST` to the records, that it reports as a
-- success has left a record with that content.
pub record IsDocumented (service : Service) (updater : Updater) : Type 1 where
  pub Has : service.Zone → Text → Text → Text → Type 0
  pub put_has :
      (zone : service.Zone) (id : Text) (body : CreateOrUpdateRequest)
      (reply : CreateOrUpdateResponse)
      → let request =
          put
            (records_url updater.zone_id ++ (codes "/" ++ id))
            (codes "Bearer " ++ updater.token)
            body in
        (service.change zone request).1 ≡ ok reply
        → reply.success ≡ true
        → Has (service.change zone request).0 body.type_name body.name body.content
  pub post_has :
      (zone : service.Zone) (body : CreateOrUpdateRequest) (reply : CreateOrUpdateResponse)
      → let request = post (records_url updater.zone_id) (codes "Bearer " ++ updater.token) body in
        (service.change zone request).1 ≡ ok reply
        → reply.success ≡ true
        → Has (service.change zone request).0 body.type_name body.name body.content

check-ok :
    (error : List _ → Error) (reply : Result Text CreateOrUpdateResponse)
    → check error reply ≡ ok tt
    → (body : CreateOrUpdateResponse) × (reply ≡ ok body) × (body.success ≡ true)
check-ok error (err e) h = cc
check-ok error (ok body) h = (body, refl, ground (arith, h))

module _ (service : Service) (updater : Updater) (d : IsDocumented service updater) where
  abbrev Published : State service updater → Text → Text → Type 0
  Published s name challenge = d.Has s.zone (codes "TXT") name challenge

  put-publishes :
      (s : State service updater) (name id challenge : Text)
      → (update_record service updater s name id challenge (codes "Bearer " ++ updater.token)).1
        ≡ ok tt
      → Published
          (update_record service updater s name id challenge (codes "Bearer " ++ updater.token)).0
          name
          challenge
  unfolding update_record
  put-publishes s name id challenge h =
      let url : records_url updater.zone_id ++ (codes "/" ++ id)
          ≡ codes "https://api.cloudflare.com/client/v4/zones/"
            ++ (updater.zone_id ++ (codes "/dns_records/" ++ id)) =
        ap (λ u. codes "https://api.cloudflare.com/client/v4/zones/" ++ u)
          (append_assoc updater.zone_id (codes "/dns_records") (codes "/" ++ id)) in
      let body = get_create_request name challenge in
      let (reply, e, k) = check-ok Error.updating _ h in
      subst
        (λ u.
          d.Has (service.change s.zone (put u (codes "Bearer " ++ updater.token) body)).0
            (codes "TXT") name challenge)
        url (d.put_has s.zone id body reply (rw url e) k)

  post-publishes :
      (s : State service updater) (name challenge : Text)
      → (create_record service updater s name challenge (codes "Bearer " ++ updater.token)).1
        ≡ ok tt
      → Published
          (create_record service updater s name challenge (codes "Bearer " ++ updater.token)).0
          name
          challenge
  unfolding create_record
  post-publishes s name challenge h =
      let (reply, e, k) = check-ok Error.creating _ h in
      d.post_has s.zone (get_create_request name challenge) reply e k

  module _ (s : State service updater) (name challenge : Text) where
    abbrev authorization : Text
    authorization = codes "Bearer " ++ updater.token

    abbrev asked : State service updater
    asked = (get_record_id service updater s name authorization).0

    abbrev put_to : Text → State service updater × Result Error (Unit {0})
    put_to id = update_record service updater asked name id challenge authorization

    -- `update` ends with a new record, or with one that was changed.
    update_cases :
        ((t : State service updater) × (update service updater s name challenge
            ≡ create_record service updater t name challenge authorization)
          × ((length t.sent ≡ length s.sent + 1) ⊎ (length t.sent ≡ length s.sent + 2)))
        ⊎ ((id : Text) × (update service updater s name challenge ≡ ((put_to id).0, ok tt))
            × ((put_to id).1 ≡ ok tt))
    unfolding update get_record_id update_record
    update_cases = elim (Result-cases (get_record_id service updater s name authorization).1) [
      | inl (e, n) ↦ inl (asked, ground (arith, n), inl (omega arith))
      | inr (id, f) ↦ elim (Result-cases (put_to id).1) [
        | inl (e, n) ↦ inl ((put_to id).0, ground (arith, f, n), inr (omega arith))
        | inr (u, o) ↦ inr (id, ground (arith, f, o), o)
      ]
    ]

    -- Where Cloudflare does as it documents, `update` succeeds only if the zone then has a TXT
    -- record of that name with the challenge. It fails only if making a new record has failed,
    -- whatever went wrong with an old one, and it sends two or three requests.
    pub update_publishes :
        ((update service updater s name challenge).1 ≡ ok tt
          → Published (update service updater s name challenge).0 name challenge)
        × ((e : Error)
            → (update service updater s name challenge).1 ≡ err e
            → (t : State service updater) × (create_record service updater t name challenge
                  authorization
                ≡ ((update service updater s name challenge).0, err e)))
        × ((length (update service updater s name challenge).0.sent ≡ length s.sent + 2)
            ⊎ (length (update service updater s name challenge).0.sent ≡ length s.sent + 3))
    unfolding create_record update_record get_record_id
    update_publishes = elim update_cases [
      | inl (t, q, n) ↦ rw q (
        λ h. post-publishes t name challenge h,
        λ e h. (t, ground (arith, h)),
        elim n [ inl m ↦ inl (omega (arith, m)) | inr m ↦ inr (omega (arith, m)) ],
      )
      | inr (id, q, o) ↦
          rw q (λ h. put-publishes asked name id challenge o, λ e h. cc, inl (omega arith))
    ]
