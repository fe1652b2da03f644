-- ===== src/Federation/Accept.antt =====
-- inbox/accept.go, with parser/actor.go and object.go: an Accept activity that the inbox receives.
-- The library vocab gives the entries of a property; pub.ToId gives the IRI of an entry or an error.
pub mod Sender
use shig.Common.{
  Text, Text-discrete, Bool, true, false, ite, if◌then◌else◌, List, [], ◌∷◌, Option, none, some,
}
use shig.Streams.{ok, err}
use shig.Federation.{Url, Urls, FollowRow, Store, Run, ◌>>=◌, ◌>>◌, give, fail}
use shig.Federation.Follow.{state_text, accepted, is_follow_activity_iri, update, get_follow_by_iri}

-- The entries of a property by their IRI; the property may be absent.
abbrev pub Entries : Type 0
Entries = Option (List (Option Url))

first_id : List (Option Url) → Option Url
first_id [] = none
first_id (none ∷ es) = first_id es
first_id (some u ∷ es) = some u

-- ExtractActorURI, ExtractObjectURI
unfoldable pub extract_uri : Entries → Option Url
unfolding first_id
extract_uri none = none
extract_uri (some es) = first_id es

-- A Follow that is embedded in the activity; its id is `none` where it is absent or no IRI.
pub record EmbeddedFollow : Type 0 where
  pub id : Option Url
  pub actor : Entries
  pub object : Entries

-- An entry of the activity's object: an IRI, a Follow, or a value of another type.
pub data Object : Type 0 where
  iri : Url → Object
  follow : EmbeddedFollow → Object
  other_object : Object

module _ {D : Type 0} (store : Store D) (urls : Urls) where
  unfoldable pub save_follow_as_accepted : FollowRow → Run D (Unit {0})
  unfolding update
  save_follow_as_accepted f = do
    _ ← update store (record f { state = state_text accepted })
    give (ok tt)

  -- Whether the property's first IRI is the text
  unfoldable pub names : Entries → Text → Bool
  unfolding extract_uri
  names es t = elim (extract_uri es) [
    | none ↦ false
    | some u ↦ ite (Text-discrete (urls.url_text u) t) true false
  ]

  unfoldable pub accept_follow : EmbeddedFollow → Run D (Unit {0})
  unfolding save_follow_as_accepted names get_follow_by_iri
  accept_follow e = elim e.id [
    | none ↦ fail
    | some u ↦ do
      f ← get_follow_by_iri store (urls.url_text u)
      if names e.actor f.actor.actor_iri
          then if names e.object f.target_actor.actor_iri then save_follow_as_accepted f else fail
          else fail
  ]

  unfoldable pub accept_object : Object → Run D (Unit {0})
  unfolding accept_follow save_follow_as_accepted get_follow_by_iri is_follow_activity_iri
  accept_object (iri u) =
      if is_follow_activity_iri u
      then (get_follow_by_iri store (urls.url_text u) >>= save_follow_as_accepted)
      else give (ok tt)
  accept_object (follow e) = accept_follow e
  accept_object other_object = give (ok tt)

  accept_all : List Object → Run D (Unit {0})
  unfolding accept_object
  accept_all [] = give (ok tt)
  accept_all (o ∷ os) = accept_object o >> accept_all os

  -- handleAcceptRequest
  unfoldable pub handle_accept_request : Option (List Object) → Run D (Unit {0})
  unfolding accept_all
  handle_accept_request none = fail
  handle_accept_request (some os) = accept_all os
