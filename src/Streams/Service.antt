-- ===== src/Streams/Service.antt =====
-- internal/stream/live_stream_service.go with the queries of live_stream_repository.go and
-- space_repository.go. uuid.Parse is a parameter; an operation that writes returns the database's
-- new state.
pub mod Ownership
use shig.Common.{
  Uuid, Text, Text-discrete, Option, none, some, Bool, true, false, ite, if◌then◌else◌, ◌==◌,
}
use shig.Streams.{
  Space, LiveStream, found, not_found, failed, Database, stream_not_found, stream_not_part_of_space,
  user_not_owner_of_stream, other_error, Result, ok, err, deref, ◌>>=◌,
}

module _ {D : Type 0} (db : Database D) (parse : Text → Option Uuid) where
  parsed : Text → Result Uuid
  parsed t = elim (parse t) [ none ↦ err other_error | some u ↦ ok u ]

  -- LiveStreamRepository.FindByUuid
  unfoldable pub find_by_uuid : Text → D → Result LiveStream
  unfolding parsed
  find_by_uuid uuid d = do
    u ← parsed uuid
    elim (db.first_stream u d) [
      | found s ↦ ok s
      | not_found ↦ err stream_not_found
      | failed ↦ err other_error
    ]

  unfoldable pub find_by_uuid_and_space_identifier : Text → Text → D → Result LiveStream
  unfolding find_by_uuid deref
  find_by_uuid_and_space_identifier uuid identifier d = do
    s ← find_by_uuid uuid d
    space ← deref s.space
    ite (Text-discrete space.identifier identifier) (ok s) (err stream_not_part_of_space)

  -- getStreamByUser
  unfoldable pub get_stream_by_user : Text → Text → D → Result LiveStream
  unfolding find_by_uuid deref
  get_stream_by_user uuid user d = do
    s ← find_by_uuid uuid d
    account ← deref s.account
    ite (Text-discrete account.user user) (ok s) (err user_not_owner_of_stream)

  -- SpaceRepository.GetByIdentifier, and the owner's test on the space
  unfoldable pub owned_space : Text → Text → D → Result Space
  unfolding deref
  owned_space identifier user d = do
    space ← elim (db.first_space identifier d) [
      | found s ↦ ok s
      | not_found ↦ err other_error
      | failed ↦ err other_error
    ]
    account ← deref space.account
    ite (Text-discrete account.user user) (ok space) (err user_not_owner_of_stream)

  written : {A : Type 0} → A → D × Bool → D × Result A
  written a (d, true) = (d, ok a)
  written a (d, false) = (d, err other_error)

  -- Delete: LiveStreamRepository.Delete parses the text again.
  unfoldable pub delete : Text → Text → D → D × Result Uuid
  unfolding get_stream_by_user parsed written
  delete uuid user d = elim (get_stream_by_user uuid user d >>= λ s. parsed uuid) [
    | err e ↦ (d, err e)
    | ok u ↦ written u (db.delete_stream u d)
  ]

  -- LiveStreamRepository.Add: `fresh` is what uuid.New gives, and 0 is uuid.Nil.
  unfoldable pub with_uuid : Uuid → LiveStream → LiveStream
  with_uuid fresh s = if s.uuid == 0 then record s { uuid = fresh } else s

  unfoldable pub create_stream : Uuid → LiveStream → Text → Text → D → D × Result Uuid
  unfolding owned_space with_uuid written
  create_stream fresh s identifier user d = elim (owned_space identifier user d) [
    | err e ↦ (d, err e)
    | ok space ↦ let s' = with_uuid fresh s in written s'.uuid (db.create_stream s' d)
  ]

  unfoldable pub update_stream : LiveStream → Text → Text → D → D × Result Uuid
  unfolding owned_space written
  update_stream s identifier user d = elim (owned_space identifier user d) [
    | err e ↦ (d, err e)
    | ok space ↦ written s.uuid (db.save_stream s d)
  ]
