-- ===== src/Federation/VideoService.antt =====
-- services/video.go: AddVideo, UpsertVideo and DeleteVideo, with inbox/announce.go, update.go and
-- delete.go and parser/to.go, attributed_to.go, name.go and published.go. A property that the
-- activity may lack is an Option; a method of a nil property panics.
use shig.Common.{Text, Text-discrete, ite, Bool, true, false, List, [], ◌∷◌, Option, none, some}
use shig.Streams.{Result, ok, err, panicked, other_error}
use shig.Federation.{
  Url, Config, Actor, Video, Store, Run, ◌>>=◌, ◌>>◌, give, fail, or_fail, wrote, saved,
}
use shig.Federation.Strings.{codes, to_lower}
use shig.Federation.ActorService.{get_local_instance_actor}
use shig.Federation.Properties.{Fields, exclude_unknown_string}
use shig.Federation.Videos.{
  StreamService, Outside, empty_video, build_owner_iris_from_follower, add_owner_and_channel,
  parse_common_unknown_props,
}

pub data VideoId : Type 0 where
  no_id no_iri : VideoId
  id_iri : Url → VideoId

-- vocab.ActivityStreamsVideo: pub.ToId of the entries of attributedTo, whether it is published, the
-- names, and the properties that vocab does not know
pub record VideoObject : Type 0 where
  pub id : VideoId
  pub attributed_to : Option (List (Option Url))
  pub is_published : Bool
  pub names : Option (List Text)
  pub unknown : Fields

pub data Object : Type 0 where
  iri : Url → Object
  video : VideoObject → Object
  other_object : Object

-- ExtractAttributedTo
unfoldable pub all_iris : List (Option Url) → Result (List Url)
all_iris [] = ok []
all_iris (none ∷ us) = err other_error
all_iris (some u ∷ us) = elim (all_iris us) [ ok vs ↦ ok (u ∷ vs) | err e ↦ err e ]

unfoldable pub extract_attributed_to : Option (List (Option Url)) → Result (List Url)
unfolding all_iris
extract_attributed_to none = err other_error
extract_attributed_to (some us) = all_iris us

-- ExtractName
unfoldable pub extract_name : Option (List Text) → Result Text
extract_name none = err panicked
extract_name (some (t ∷ [])) = ok t
extract_name (some ts) = ok []

unfoldable pub or_panic : Bool → Result (Unit {0})
or_panic true = ok tt
or_panic false = err panicked

unfoldable pub id_text : (Url → Text) → VideoId → Result Text
id_text url_text no_id = err panicked
id_text url_text no_iri = err other_error
id_text url_text (id_iri u) = ok (url_text u)

module _ {D : Type 0} (store : Store D) (outside : Outside) (config : Config)
    (streams : StreamService D) where
  -- VideoRepository.Upsert
  unfoldable pub upsert : Video → Run D Video
  upsert v d = wrote (store.upsert_video v d)

  -- The body of AddVideo's loop at an IRI
  unfoldable pub fetch_video : Actor → Url → Video → Run D Video
  unfolding to_lower exclude_unknown_string parse_common_unknown_props
  fetch_video inst u v = do
    raw ← give (or_fail (outside.fetch_object inst (outside.urls.url_text u)))
    kind ← give (exclude_unknown_string raw (codes "type"))
    _ ← give (ite (Text-discrete (to_lower kind) (codes "video")) (ok (tt {0})) (err other_error))
    name ← give (exclude_unknown_string raw (codes "name"))
    parse_common_unknown_props store outside config raw
        (record v { iri = outside.urls.url_text u; name = name }) inst

  unfoldable pub fetch_all : Actor → List Object → Video → Run D Video
  unfolding fetch_video
  fetch_all inst [] v = give (ok v)
  fetch_all inst (iri u ∷ os) v = fetch_video inst u v >>= fetch_all inst os
  fetch_all inst (_ ∷ os) v = fetch_all inst os v

  -- The end of AddVideo
  unfoldable pub save_new : Video → Run D (Unit {0})
  unfolding upsert
  save_new v = do v' ← upsert v; streams.create_stream_access_by_video v'

  unfoldable pub add_video : List Object → List (Option Url) → Run D (Unit {0})
  unfolding fetch_all save_new add_owner_and_channel get_local_instance_actor
  add_video os to = do
    owners ← give (build_owner_iris_from_follower to)
    inst ← get_local_instance_actor store outside.urls config
    v ← add_owner_and_channel store outside config inst owners empty_video
    v' ← fetch_all inst os v
    save_new v'

  -- The body of UpsertVideo's loop at a video
  unfoldable pub read_video : VideoObject → Video → Run D Video
  unfolding get_local_instance_actor add_owner_and_channel parse_common_unknown_props
      extract_attributed_to extract_name or_panic id_text
  read_video o v = do
    id ← give (id_text outside.urls.url_text o.id)
    owners ← give (extract_attributed_to o.attributed_to)
    inst ← get_local_instance_actor store outside.urls config
    v1 ← add_owner_and_channel store outside config inst owners (record v { iri = id })
    _ ← give (or_panic o.is_published)
    name ← give (extract_name o.names)
    parse_common_unknown_props store outside config o.unknown (record v1 { name = name }) inst

  unfoldable pub read_all : List Object → Video → Run D Video
  unfolding read_video
  read_all [] v = give (ok v)
  read_all (video o ∷ os) v = read_video o v >>= read_all os
  read_all (_ ∷ os) v = read_all os v

  -- UpsertVideo: the streams are given the video that was built.
  unfoldable pub upsert_video : List Object → Run D (Unit {0})
  unfolding read_all upsert
  upsert_video os = do
    v ← read_all os empty_video
    _ ← upsert v
    streams.update_stream_access_by_video v

  -- DeleteVideo, with VideoRepository.DeleteByIri
  unfoldable pub delete_video : List Object → Run D (Unit {0})
  delete_video [] = give (ok tt)
  delete_video (iri u ∷ os) =
      (do
        let i = outside.urls.url_text u
        _ ← λ d. saved (tt {0}) (store.delete_video_where_iri i d)
        streams.delete_stream_access_by_video i)
      >> delete_video os
  delete_video (_ ∷ os) = delete_video os

  -- handleAnnounceRequest, with ExtractTo
  unfoldable pub handle_announce_request :
      Option (List Object) → Option (List (Option Url)) → Run D (Unit {0})
  unfolding add_video
  handle_announce_request none to = fail
  handle_announce_request (some os) none = fail
  handle_announce_request (some os) (some to) = add_video os to

  -- handleUpdateRequest: At(0) of the object is read before the test for nil.
  unfoldable pub handle_update_request : Option (List Object) → Run D (Unit {0})
  unfolding upsert_video
  handle_update_request none = give (err panicked)
  handle_update_request (some []) = give (err panicked)
  handle_update_request (some (video o ∷ os)) = upsert_video (video o ∷ os)
  handle_update_request (some (_ ∷ os)) = give (ok tt)

  unfoldable pub handle_delete_request : Option (List Object) → Run D (Unit {0})
  unfolding delete_video
  handle_delete_request none = fail
  handle_delete_request (some os) = delete_video os
