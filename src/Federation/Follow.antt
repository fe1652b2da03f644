-- ===== src/Federation/Follow.antt =====
-- models/follow.go, follow_repository.go and the follow's IRI in instance/iri.go. The regular
-- expression of IsFollowActivityIri is the test on its prefix and on the 36 characters after it.
pub mod Iri
use shig.Common.{Text, ℕ, suc, zero, ◌==◌, ◌&&◌, ◌||◌, leb, Bool, true, false, [], ◌∷◌, none, some}
use shig.Federation.{Url, Urls, Actor, FollowRow, Store, Run, give, of_query, saved}
use shig.Federation.Strings.{codes, after_prefix, join_path}

pub data FollowState : Type 0 where
  accepted pending rejected : FollowState

-- FollowState.String
abbrev pub state_text : FollowState → Text
state_text accepted = codes "accepted"
state_text pending = codes "pending"
state_text rejected = codes "rejected"

-- BuildFollowActivityIri; `fresh` is what uuid.NewString gives.
unfoldable pub build_follow_activity_iri : Url → Text → Url
unfolding join_path
build_follow_activity_iri instance_url fresh = record instance_url {
  path = join_path instance_url.path (codes "federation" ∷ codes "follow" ∷ fresh ∷ []);
}

-- [0123456789abcdefABCDEF-]
abbrev pub is_hex : ℕ → Bool
is_hex c =
    leb b'0' c && leb c b'9' || leb b'a' c && leb c b'f' || leb b'A' c && leb c b'F' || c == b'-'

abbrev pub starts_hex : ℕ → Text → Bool
starts_hex zero s = true
starts_hex (suc n) [] = false
starts_hex (suc n) (c ∷ s) = is_hex c && starts_hex n s

unfoldable pub is_follow_activity_iri : Url → Bool
unfolding after_prefix
is_follow_activity_iri u = elim (after_prefix (codes "/federation/follow/") u.path) [
  | none ↦ false
  | some rest ↦ starts_hex 36 rest
]

unfoldable pub new_follow : Urls → Actor → Actor → Url → Text → FollowRow
unfolding build_follow_activity_iri
new_follow urls actor target instance_url fresh = record {
  id = 0;
  iri = urls.url_text (build_follow_activity_iri instance_url fresh);
  actor_id = actor.id;
  target_actor_id = target.id;
  state = state_text pending;
  actor = actor;
  target_actor = target;
}

-- Actor{} and Follow{Iri: iri}
abbrev pub empty_actor : Actor
empty_actor = record {
  id = 0;
  actor_type = [];
  actor_iri = [];
  inbox_iri = [];
  preferred_username = [];
  following_iri = [];
  followers_iri = [];
  outbox_iri = [];
  shared_inbox_iri = [];
  public_key = [];
}

abbrev pub with_iri : Text → FollowRow
with_iri iri = record {
  id = 0;
  iri = iri;
  actor_id = 0;
  target_actor_id = 0;
  state = [];
  actor = empty_actor;
  target_actor = empty_actor;
}

module _ {D : Type 0} (store : Store D) where
  -- FollowRepository.Add
  unfoldable pub add : FollowRow → Run D FollowRow
  add f d = saved f (store.create_follow f d)

  -- FollowRepository.Update
  unfoldable pub update : FollowRow → Run D FollowRow
  update f d = saved f (store.save_follow f d)

  unfoldable pub get_follow_by_iri : Text → Run D FollowRow
  get_follow_by_iri iri d = give (of_query (store.first_follow (with_iri iri) d)) d
