-- ===== src/Streams.antt =====
-- internal/stream: the live streams, their spaces and the service that the handlers call. The
-- database is a parameter; what it answers is what gorm's First and the writes answer.
pub mod Service
use shig.Common.{Uuid, Text, Option, none, ◌≡◌, Bool, ℕ}

pub record Account : Type 0 where
  pub user : Text
  pub uuid : Text

-- A pointer to an associated row is `none` where the query has not loaded it.
pub record Space : Type 0 where
  pub identifier : Text
  pub account : Option Account

pub record LiveStream : Type 0 where
  pub uuid : Uuid
  pub title : Text
  pub video : Option Text
  pub lobby : Option Uuid
  pub space : Option Space
  pub account : Option Account

pub data Query (A : Type 0) : Type 0 where
  found : A → Query A
  not_found failed : Query A

-- The queries of the repositories, in a state D of the database. gorm leaves an association that a
-- query does not preload at nil, and First on a space preloads none.
pub record Database (D : Type 0) : Type 0 where
  pub first_stream : Uuid → D → Query LiveStream
  pub first_space : Text → D → Query Space
  pub create_stream : LiveStream → D → D × Bool
  pub save_stream : LiveStream → D → D × Bool
  pub delete_stream : Uuid → D → D × Bool
  pub space_bare : (i : Text) (d : D) (s : Space) → first_space i d ≡ found s → s.account ≡ none

-- The errors that the callers tell apart, and `panicked` for a nil pointer that is dereferenced.
pub data Fault : Type 0 where
  stream_not_found stream_not_part_of_space user_not_owner_of_stream : Fault
  other_error : Fault
  panicked : Fault

pub data Result (A : Type 0) : Type 0 where
  ok : A → Result A
  err : Fault → Result A

infixl 5 ◌>>=◌
abbrev pub ◌>>=◌ : {A B : Type 0} → Result A → (A → Result B) → Result B
ok a >>= f = f a
err e >>= f = err e

-- A pointer that the source dereferences.
unfoldable pub deref : {A : Type 0} → Option A → Result A
deref none = err panicked
deref (Option.some a) = ok a
