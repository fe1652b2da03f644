-- ===== src/Media/StreamResource/Writing.antt =====
-- What the handlers of a stream can write.
use shig.Common.{
  Uuid, Text, Option, none, some, false, ◌≡◌, ◌≢◌, ◌⊎◌, inl, inr, refl, arith, Option-cases,
}
use shig.Streams.{
  LiveStream, Database, Result, ok, err, Fault, stream_not_found, stream_not_part_of_space,
  user_not_owner_of_stream, other_error, panicked,
}
use shig.Streams.Service
use shig.Streams.Service.Ownership.{OwnStream, is_ok, delete-own, create-update-fail}
use shig.Media.Response.{
  Response, Message, new_response, set_header, with_type, application_json, write_header,
  http_error, error_delete_stream, error_create_stream, error_update_stream,
}
use shig.Media.Request.{Request}
use shig.Media.Live.{get_json_payload}
use shig.Media.StreamResource.{replied, delete_stream, create_stream, update_stream}

module _ {D : Type 0} (m : Message) (done : Uuid → Response → Response) (w : Response) where
  -- A fault is no success, and leaves the database's state as the service left it.
  replied-err :
      (d : D) (e : Fault)
      → w.status ≡ none
      → ((replied m done w (d, err e)).response.status ≢ some 200)
        × ((replied m done w (d, err e)).response.status ≢ some 201)
        × ((replied m done w (d, err e)).response.status ≢ some 204)
        × ((replied m done w (d, err e)).state ≡ d)
  unfolding replied http_error write_header set_header
  replied-err d stream_not_found e = ground arith
  replied-err d stream_not_part_of_space e = ground arith
  replied-err d user_not_owner_of_stream e = ground arith
  replied-err d other_error e = ground arith
  replied-err d panicked e = ground arith

  replied-fails :
      (p : D × Result Uuid)
      → is_ok p.1 ≡ false
      → w.status ≡ none
      → ((replied m done w p).response.status ≢ some 200)
        × ((replied m done w p).response.status ≢ some 201)
        × ((replied m done w p).response.status ≢ some 204)
        × ((replied m done w p).state ≡ p.0)
  replied-fails (d, ok u) e h = absurd (cc e)
  replied-fails (d, err x) e h = replied-err d x h

module _ {D : Type 0} (db : Database D) (parse : Text → Option Uuid) (r : Request) (d : D) where
  -- No request creates or updates a stream, since the space is read without its account: creating
  -- never answers 201, updating never 204, and nothing is stored.
  pub create-update-never :
      (decode : Text → Option LiveStream) (location : Uuid → Text) (fresh : Uuid)
      → ((create_stream db parse decode location fresh r d).response.status ≢ some 201)
        × ((create_stream db parse decode location fresh r d).state ≡ d)
        × ((update_stream db parse decode r d).response.status ≢ some 204)
        × ((update_stream db parse decode r d).state ≡ d)
  unfolding create_stream update_stream
  create-update-never decode location fresh = elim (Option-cases r.principal) [
    | inl n ↦ ground arith
    | inr (name, p) ↦ elim (Option-cases r.space) [
      | inl n ↦ ground arith
      | inr (space, q) ↦ elim (Option-cases (get_json_payload decode r)) [
        | inl n ↦ ground arith
        | inr (s, h) ↦
            let fails = create-update-fail db parse fresh s space name d in
            let w = set_header (with_type application_json) new_response in
            let made = Service.create_stream db parse fresh s space name d in
            let kept = Service.update_stream db parse s space name d in
            let no_made : is_ok made.1 ≡ false = rw fails.0 in
            let no_kept : is_ok kept.1 ≡ false = rw fails.1 in
            let a =
              replied-fails error_create_stream
                (λ u v.
                  write_header 201 (set_header (λ h. record h { location = some (location u) }) v))
                w made no_made refl in
            let b = replied-fails error_update_stream (λ u. write_header 204) w kept no_kept refl in
            ground arith
      ]
    ]
  ]

  -- A stream is deleted only by the user whose name its account has: else there is no 200 and
  -- nothing is deleted.
  pub delete_stream-own :
      ((name : Text) × (id : Text) × (r.principal ≡ some name)
        × (r.id ≡ some id)
        × OwnStream db parse id name d)
      ⊎ (((delete_stream db parse r d).response.status ≢ some 200)
          × ((delete_stream db parse r d).state ≡ d))
  unfolding delete_stream
  delete_stream-own = elim (Option-cases r.principal) [
    | inl n ↦ inr (ground arith)
    | inr (name, p) ↦ elim (Option-cases r.id) [
      | inl n ↦ inr (ground arith)
      | inr (id, q) ↦ elim (delete-own db parse id name d) [
        | inl own ↦ inl (name, id, p, q, own)
        | inr (same, no_ok) ↦ inr (
            let w = set_header (with_type application_json) new_response in
            let fails =
              replied-fails error_delete_stream (λ u. write_header 200) w
                (Service.delete db parse id name d) no_ok refl in
            ground arith)
      ]
    ]
  ]
