-- ===== src/Federation/StreamAccess.antt =====
-- internal/stream: CreateStreamAccessByVideo, UpdateStreamAccessByVideo and DeleteStreamAccessByVideo
-- of live_stream_service.go with what live_stream_repository.go writes, and NewLobbyEntity. A row has
-- the fields that these functions set, less the new lobby's own UUID; `fresh n` is the n-th new UUID,
-- and 0 is uuid.Nil.
use shig.Common.{
  Text, Uuid, ℕ, ◌+◌, ◌==◌, Bool, false, if◌then◌else◌, List, [], ◌∷◌, ◌++◌, Option, none, some,
}
use shig.Streams.{Query, found, not_found, failed, Result, ok, err, other_error, deref, ◌>>=◌}
use shig.Federation as F
use shig.Federation.{Urls, Actor, Video, Run, give, saved, or_fail}
use shig.Federation.Strings.{base}

pub record AccountRow : Type 0 where
  pub actor : Actor
  pub user : Text
  pub uuid : Text

pub record LobbyRow : Type 0 where
  pub live_stream_id : Uuid
  pub space : Text
  pub host : Text
  pub is_running : Bool
  pub is_live : Bool

pub record SpaceRow : Type 0 where
  pub identifier : Text
  pub channel : Actor
  pub account : Option AccountRow

pub record StreamRow : Type 0 where
  pub uuid : Uuid
  pub user : Text
  pub video : Video
  pub lobby : LobbyRow
  pub space : SpaceRow
  pub account : AccountRow

-- The reads and writes. Create on an account does nothing where one of its unique columns is taken.
pub record StreamStore (D : Type 0) : Type 0 where
  pub first_account : Text → D → Query AccountRow
  pub first_space : Text → D → Query SpaceRow
  pub first_lobby : Uuid → D → Query LobbyRow
  pub create_stream : StreamRow → D → D × Bool
  pub count_streams : Uuid → D → ℕ
  pub delete_streams : Uuid → D → D × Bool
  pub create_account : AccountRow → D → D

unfoldable pub new_lobby_entity : Uuid → Text → Text → LobbyRow
new_lobby_entity stream_id space shig_host = record {
  live_stream_id = stream_id;
  space = space;
  host = shig_host;
  is_running = false;
  is_live = false;
}

-- buildFederatedId of an actor; the host of an IRI that does not parse is read through nil.
unfoldable pub federated_id : Urls → Actor → Result Text
unfolding deref
federated_id urls a = do
  u ← deref (urls.parse_url a.actor_iri)
  ok (a.preferred_username ++ (b'@' ∷ u.host))

-- What a search adds to the new stream: the row that is there, else the new one
unfoldable pub or_new : {A : Type 0} → A → Query A → Result A
or_new new (found a) = ok a
or_new new not_found = ok new
or_new new failed = err other_error

uuid_or_nil : Option Uuid → Uuid
uuid_or_nil none = 0
uuid_or_nil (some u) = u

module _ {D : Type 0} (store : StreamStore D) (urls : Urls) (parse : Text → Option Uuid) where
  -- BuildGuestAccounts
  unfoldable pub build_guest_accounts : (ℕ → Text) → ℕ → List Actor → Run D (Unit {0})
  unfolding federated_id
  build_guest_accounts fresh n [] d = (d, ok tt)
  build_guest_accounts fresh n (a ∷ as') d =
      let rest = λ (user : Text).
        build_guest_accounts fresh (n + 1) as'
          (store.create_account (record { actor = a; user = user; uuid = fresh n }) d) in
      elim (federated_id urls a) [ err e ↦ (d, err e) | ok user ↦ rest user ]

  unfoldable pub upsert_live_stream : StreamRow → Run D (Unit {0})
  unfolding or_new
  upsert_live_stream s d =
      elim (do
        account ← or_new s.account (store.first_account s.user d)
        space ← or_new s.space (store.first_space s.space.identifier d)
        lobby ← or_new s.lobby (store.first_lobby s.lobby.live_stream_id d)
        ok (record s { account = account; space = space; lobby = lobby })) [
          | err e ↦ (d, err e)
          | ok s' ↦ saved tt (store.create_stream s' d)
        ]

  unfoldable pub contains : Text → D → Bool
  contains uuid d = elim (parse uuid) [ none ↦ false | some u ↦ store.count_streams u d == 1 ]

  -- The stream of a video, with its account, space and lobby
  unfoldable pub stream_of : Video → Actor → Actor → Text → Text → Text → Text → StreamRow
  unfolding new_lobby_entity uuid_or_nil
  stream_of v owner channel user_id channel_id account_uuid host =
      let account : AccountRow = record { actor = owner; user = user_id; uuid = account_uuid } in
      let id = uuid_or_nil (parse v.uuid) in
      record {
        uuid = id;
        user = user_id;
        video = v;
        lobby = new_lobby_entity id channel_id host;
        space = record { identifier = channel_id; channel = channel; account = some account };
        account = account;
      }

  -- CreateStreamAccessByVideo after the names of the owner and of the channel
  unfoldable pub access_for : (ℕ → Text) → Video → Actor → Actor → Text → Text → Run D (Unit {0})
  unfolding deref build_guest_accounts stream_of upsert_live_stream
  access_for fresh v owner channel user_id channel_id =
      F.◌>>=◌ (build_guest_accounts fresh 1 v.guests) λ _. F.◌>>=◌ (give (deref v.in_instance)) λ i.
        F.◌>>=◌ (give (deref i.actor)) λ host.
          upsert_live_stream (stream_of v owner channel user_id channel_id (fresh 0) host.actor_iri)

  unfoldable pub create_stream_access_by_video : (ℕ → Text) → Video → Run D (Unit {0})
  unfolding deref federated_id access_for
  create_stream_access_by_video fresh v = F.◌>>=◌ (give (deref v.owner)) λ owner.
      F.◌>>=◌ (give (federated_id urls owner)) λ user_id.
        F.◌>>=◌ (give (deref v.channel)) λ channel.
          F.◌>>=◌ (give (federated_id urls channel))
            λ channel_id. access_for fresh v owner channel user_id channel_id

  unfoldable pub update_stream_access_by_video : (ℕ → Text) → Video → Run D (Unit {0})
  unfolding contains build_guest_accounts create_stream_access_by_video
  update_stream_access_by_video fresh v d =
      if contains v.uuid d
      then build_guest_accounts fresh 0 v.guests d
      else create_stream_access_by_video fresh v d

  -- DeleteStreamAccessByVideo, with DeleteByUuid
  unfoldable pub delete_stream_access_by_video : Text → Run D (Unit {0})
  unfolding base
  delete_stream_access_by_video iri d = elim (parse (base iri)) [
    | none ↦ (d, err other_error)
    | some u ↦ saved tt (store.delete_streams u d)
  ]
