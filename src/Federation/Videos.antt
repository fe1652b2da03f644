-- ===== src/Federation/Videos.antt =====
-- services/video.go and instance.go: the videos of other instances. The service of the streams is an
-- interface in the source too. `fetch_object` is the signed request for a video and its decoded body.
pub mod Owners
use shig.Common.{
  Text, Text-discrete, Uuid, ℕ, ite, Bool, true, false, if◌then◌else◌, List, [], ◌∷◌, ◌++◌, Option,
  none, some, is_some,
}
use shig.Streams.{Query, Result, ok, err, panicked, other_error, deref}
use shig.Federation.{
  Url, Urls, Config, Actor, Instance, Video, Store, Run, ◌>>=◌, ◌>>◌, give, fail, or_fail, of_query,
  wrote, saved,
}
use shig.Federation.Strings.{codes, to_lower, split, before_suffix}
use shig.Federation.ActorService.{Fetch, get_local_instance_actor, create_actor_from_remote_account}
use shig.Federation.Properties.{
  Fields, ShigGuests, VideoProperties, exclude_unknown_string, extract_video_unknown_properties,
}

-- stream.LiveStreamService, as the interface services.StreamService
pub record StreamService (D : Type 0) : Type 0 where
  pub create_stream_access_by_video : Video → Run D (Unit {0})
  pub update_stream_access_by_video : Video → Run D (Unit {0})
  pub delete_stream_access_by_video : Text → Run D (Unit {0})

-- What the source calls outside: other instances, and the libraries for URLs and UUIDs
pub record Outside : Type 0 where
  pub urls : Urls
  pub fetch : Fetch
  pub fetch_object : Actor → Text → Option Fields
  pub parse : Text → Option Uuid
  pub uuid_text : Uuid → Text
  pub to_uint : ℕ → ℕ

pub data ActorType : Type 0 where
  person group organization application service bot : ActorType

-- ActorTypeFromString
unfoldable pub actor_type_from_string : Text → ActorType
unfolding to_lower
actor_type_from_string t =
    let s = to_lower t in
    ite (Text-discrete s (codes "person")) person (
      ite (Text-discrete s (codes "group")) group (
        ite (Text-discrete s (codes "organization")) organization (
          ite (Text-discrete s (codes "application")) application
            (ite (Text-discrete s (codes "service")) service bot))))

abbrev pub empty_video : Video
empty_video = record {
  iri = [];
  uuid = [];
  name = [];
  shig_active = false;
  instance_id = 0;
  in_instance = none;
  owner = none;
  channel = none;
  guests = [];
  is_live_broadcast = false;
  live_save_replay = false;
  permanent_live = false;
  latency_mode = 0;
  state = 0;
}

-- A call whose error is passed over; a panic is not.
unfoldable pub attempted : {D A : Type 0} → D × Result A → D × Result (Option A)
attempted (d, ok a) = (d, ok (some a))
attempted (d, err panicked) = (d, err panicked)
attempted (d, err e) = (d, ok none)

unfoldable pub attempt : {D A : Type 0} → Run D A → Run D (Option A)
unfolding attempted
attempt m d = attempted (m d)

-- buildOwnerIrisFromFollower; an entry that is no IRI is a nil pointer.
unfoldable pub build_owner_iris_from_follower : List (Option Url) → Result (List Url)
unfolding before_suffix
build_owner_iris_from_follower [] = ok []
build_owner_iris_from_follower (none ∷ us) = err panicked
build_owner_iris_from_follower (some u ∷ us) = elim (build_owner_iris_from_follower us) [
  | err e ↦ err e
  | ok owners ↦ elim (before_suffix (codes "followers") u.path) [
    | none ↦ ok owners
    | some path ↦ ok (record u { path = path } ∷ owners)
  ]
]

-- The loop's body in addOwnerAndChannel, for an actor that was created. The message on a second
-- channel reads the owner's key.
unfoldable pub add_owner : Actor → Video → Result Video
add_owner a v = elim v.owner [ none ↦ ok (record v { owner = some a }) | some o ↦ err other_error ]

unfoldable pub add_channel : Actor → Video → Result Video
add_channel a v = elim v.channel [
  | none ↦ ok (record v { channel = some a })
  | some c ↦ elim v.owner [ none ↦ err panicked | some o ↦ err other_error ]
]

unfoldable pub assign_as : ActorType → Actor → Video → Result Video
unfolding add_owner add_channel
assign_as person a v = add_owner a v
assign_as group a v = add_channel a v
assign_as _ a v = ok v

unfoldable pub assign : Option Actor → Video → Result Video
unfolding assign_as
assign none v = ok v
assign (some a) v = assign_as (actor_type_from_string a.actor_type) a v

-- buildAccountIri
unfoldable pub build_account_iri : Urls → Config → Text → Option Url
unfolding split
build_account_iri urls config account_name = elim (split b'@' account_name) [
  | name ∷ host ∷ [] ↦ elim (urls.parse_url (codes "/accounts/" ++ name)) [
    | none ↦ none
    | some u ↦
        some
          (record u { host = host; scheme = if config.https then codes "https" else codes "http" })
  ]
  | _ ↦ none
]

module _ {D : Type 0} (store : Store D) (outside : Outside) (config : Config) where
  unfoldable pub create_actor : Text → Actor → Run D Actor
  unfolding create_actor_from_remote_account
  create_actor iri inst = create_actor_from_remote_account store outside.fetch iri inst

  unfoldable pub add_owner_and_channel : Actor → List Url → Video → Run D Video
  unfolding attempt
  add_owner_and_channel inst [] v = give (ok v)
  add_owner_and_channel inst (u ∷ us) v = do
    a ← attempt (create_actor (outside.urls.url_text u) inst)
    v' ← give (assign a v)
    add_owner_and_channel inst us v'

  -- InstanceRepository.GetInstanceByActorIri, with getInstanceByActorIri
  unfoldable pub get_instance_by_actor_iri : Text → D → Option Instance
  get_instance_by_actor_iri iri d = elim (store.first_actor_where_iri iri d) [
    | Query.found a ↦ elim (store.first_instance_where_actor a.id d) [
      | Query.found i ↦ some i
      | _ ↦ none
    ]
    | _ ↦ none
  ]

  -- upsertInstanceByActor, with NewInstance
  unfoldable pub upsert_instance_by_actor : Actor → Run D Instance
  upsert_instance_by_actor a d =
      wrote (store.create_instance (record { id = 0; actor_id = a.id; actor = some a }) d)

  unfoldable pub in_instance : Video → Instance → Video
  in_instance v i = record v { instance_id = i.id; in_instance = some i }

  -- The instance that is not in the database: where its actor is not created, the pointer is nil.
  unfoldable pub new_instance : Text → Video → Actor → Run D Video
  unfolding attempt in_instance create_actor upsert_instance_by_actor
  new_instance iri v inst = do
    created ← attempt (create_actor iri inst)
    a ← give (deref created)
    i ← attempt (upsert_instance_by_actor a)
    give (ok (elim i [ none ↦ v | some j ↦ in_instance v j ]))

  unfoldable pub add_instance : Text → Video → Actor → Run D Video
  unfolding new_instance get_instance_by_actor_iri in_instance
  add_instance [] v inst d = (d, ok v)
  add_instance (c ∷ cs) v inst d =
      elim (outside.urls.parse_url ((c ∷ cs) ++ codes "/federation/accounts/shig")) [
        | none ↦ (d, ok v)
        | some u ↦ elim (get_instance_by_actor_iri (outside.urls.url_text u) d) [
          | some i ↦ (d, ok (in_instance v i))
          | none ↦ new_instance (outside.urls.url_text u) v inst d
        ]
      ]

  unfoldable pub add_guest : Text → Actor → Video → Run D Video
  unfolding attempt create_actor build_account_iri
  add_guest [] inst v = give (ok v)
  add_guest (c ∷ cs) inst v = elim (build_account_iri outside.urls config (c ∷ cs)) [
    | none ↦ give (ok v)
    | some u ↦ do
      a ← attempt (create_actor (outside.urls.url_text u) inst)
      give (ok (elim a [ none ↦ v | some b ↦ record v { guests = v.guests ++ (b ∷ []) } ]))
  ]

  unfoldable pub with_properties : VideoProperties → Video → Video
  with_properties p v = record v {
    latency_mode = p.latency_mode;
    uuid = p.uuid;
    state = p.state;
    is_live_broadcast = p.is_live_broadcast;
    permanent_live = p.permanent_live;
    live_save_replay = p.live_save_replay;
    shig_active = p.shig_active;
  }

  unfoldable pub add_shig : VideoProperties → Actor → Video → Run D Video
  unfolding add_instance add_guest
  add_shig p inst v = do
    v1 ← add_instance p.shig_instance_url v inst
    g ← give (deref p.shig)
    v2 ← add_guest g.first_guest inst v1
    v3 ← add_guest g.second_guest inst v2
    add_guest g.third_guest inst v3

  unfoldable pub parse_common_unknown_props : Fields → Video → Actor → Run D Video
  unfolding add_shig with_properties
  parse_common_unknown_props fs v inst = do
    p ← give (extract_video_unknown_properties outside.parse outside.uuid_text outside.to_uint fs)
    let v' = with_properties p v
    if p.shig_active then add_shig p inst v' else give (ok v')
