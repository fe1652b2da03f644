-- ===== src/Federation.antt =====
-- internal/activitypub: the actors, follows and videos of other instances, and the runs of the
-- functions that read and write them. A run takes the database's state and gives the new one with
-- a result; the source tells its errors apart only by whether there is one. What gorm and net/url
-- answer are parameters.
pub mod Strings
pub mod Cases
pub mod Follow
pub mod Accept
pub mod ActorService
pub mod Register
pub mod Inbox
pub mod Signature
pub mod Properties
pub mod StreamAccess
pub mod Videos
pub mod VideoService
pub mod Account
pub mod Resolver
pub mod Connector
mod Examples
mod VideoExamples
mod AccountExamples
mod SignatureExamples
use shig.Common.{Text, Option, none, ◌≡◌, Bool, ℕ, List}
use shig.Streams.{Query, Result, ok, err, other_error}

-- The parts of a *url.URL that the source reads.
pub record Url : Type 0 where
  pub scheme : Text
  pub host : Text
  pub path : Text

-- instance.FederationConfig
pub record Config : Type 0 where
  pub enable : Bool
  pub is_private : Bool
  pub https : Bool
  pub instance_url : Url
  pub instance_username : Text
  pub register_token : Text

-- net/url
pub record Urls : Type 0 where
  pub parse_url : Text → Option Url
  pub url_text : Url → Text

pub record Actor : Type 0 where
  pub id : ℕ
  pub actor_type : Text
  pub actor_iri : Text
  pub inbox_iri : Text
  pub preferred_username : Text
  pub following_iri : Text
  pub followers_iri : Text
  pub outbox_iri : Text
  pub shared_inbox_iri : Text
  pub public_key : Text

pub record Instance : Type 0 where
  pub id : ℕ
  pub actor_id : ℕ
  pub actor : Option Actor

-- A follow as the queries load it, with both actors.
pub record FollowRow : Type 0 where
  pub id : ℕ
  pub iri : Text
  pub actor_id : ℕ
  pub target_actor_id : ℕ
  pub state : Text
  pub actor : Actor
  pub target_actor : Actor

pub record Video : Type 0 where
  pub iri : Text
  pub uuid : Text
  pub name : Text
  pub shig_active : Bool
  pub instance_id : ℕ
  pub in_instance : Option Instance
  pub owner : Option Actor
  pub channel : Option Actor
  pub guests : List Actor
  pub is_live_broadcast : Bool
  pub live_save_replay : Bool
  pub permanent_live : Bool
  pub latency_mode : ℕ
  pub state : ℕ

-- The writes and reads of the repositories. First takes the record that it fills; of its fields
-- gorm reads the primary key alone, which is 0 where it is not set. A write that gorm refuses is
-- `none` or `false`.
pub record Store (D : Type 0) : Type 0 where
  pub first_follow : FollowRow → D → Query FollowRow
  pub create_follow : FollowRow → D → D × Bool
  pub save_follow : FollowRow → D → D × Bool
  pub first_actor : Actor → D → Query Actor
  pub first_actor_where_iri : Text → D → Query Actor
  pub upsert_actor : Actor → D → D × Option Actor
  pub first_instance_where_actor : ℕ → D → Query Instance
  pub create_instance : Instance → D → D × Option Instance
  pub upsert_video : Video → D → D × Option Video
  pub delete_video_where_iri : Text → D → D × Bool
  pub first_follow_by_key :
      (f g : FollowRow) (d : D) → f.id ≡ g.id → first_follow f d ≡ first_follow g d
  pub first_actor_by_key : (f g : Actor) (d : D) → f.id ≡ g.id → first_actor f d ≡ first_actor g d

abbrev pub Run : Type 0 → Type 0 → Type 0
Run D A = D → D × Result A

abbrev pub resume : {D A B : Type 0} → D × Result A → (A → Run D B) → D × Result B
resume (d, ok a) f = f a d
resume (d, err e) f = (d, err e)

infixl 5 ◌>>=◌ ◌>>◌
abbrev pub ◌>>=◌ : {D A B : Type 0} → Run D A → (A → Run D B) → Run D B
◌>>=◌ m f d = resume (m d) f

abbrev pub ◌>>◌ : {D A B : Type 0} → Run D A → Run D B → Run D B
m >> k = m >>= λ _. k

-- A run that leaves the state as it is.
abbrev pub give : {D A : Type 0} → Result A → Run D A
give r d = (d, r)

abbrev pub fail : {D A : Type 0} → Run D A
fail d = (d, err other_error)

-- The answers of gorm and of other calls that give a value or an error.
abbrev pub or_fail : {A : Type 0} → Option A → Result A
or_fail none = err other_error
or_fail (Option.some a) = ok a

abbrev pub of_query : {A : Type 0} → Query A → Result A
of_query (Query.found a) = ok a
of_query Query.not_found = err other_error
of_query Query.failed = err other_error

abbrev pub wrote : {D A : Type 0} → D × Option A → D × Result A
wrote (d, none) = (d, err other_error)
wrote (d, Option.some a) = (d, ok a)

abbrev pub saved : {D A : Type 0} → A → D × Bool → D × Result A
saved a (d, Bool.true) = (d, ok a)
saved a (d, Bool.false) = (d, err other_error)
