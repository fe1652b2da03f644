-- ===== src/Federation/Accept/Sender.antt =====
-- Whose follow an Accept activity marks.
use shig.Common.{
  Option-cases, Text, ◌≡◌, ◌⊎◌, inl, inr, refl, true, false, List, [], ◌∷◌, All, some, arith,
}
use shig.Streams.{found, ok, err, other_error}
use shig.Federation.{Url, Urls, FollowRow, Store}
use shig.Federation.Follow.{
  is_follow_activity_iri, with_iri, get_follow_by_iri, state_text, accepted,
}
use shig.Federation.Accept.{
  Object, iri, follow, other_object, names, handle_accept_request, accept_all, accept_object,
  save_follow_as_accepted,
}

module _ {D : Type 0} (store : Store D) (urls : Urls) where
  -- GetFollowByIri gives the follow that First finds with no condition.
  found_any :
      (i : Text) (d : D) (f : FollowRow)
      → store.first_follow (with_iri []) d ≡ found f
      → get_follow_by_iri store i d ≡ (d, ok f)
  unfolding get_follow_by_iri
  found_any i d f e = rw (store.first_follow_by_key (with_iri i) (with_iri []) d refl) (rw e)

  save_lem :
      (f : FollowRow) (d : D)
      → (save_follow_as_accepted store urls f d).0
        ≡ (store.save_follow (record f { state = state_text accepted }) d).0
  unfolding save_follow_as_accepted
  save_lem f d = ground arith

  -- If First finds a follow with no condition, then an Accept of one IRI that has the form of a
  -- follow's leaves the database as the saving of this follow as accepted leaves it, whichever
  -- follow the IRI names.
  pub accept-first :
      (u : Url) (d : D) (f : FollowRow)
      → is_follow_activity_iri u ≡ true
      → store.first_follow (with_iri []) d ≡ found f
      → (handle_accept_request store urls (some (iri u ∷ [])) d).0
        ≡ (store.save_follow (record f { state = state_text accepted }) d).0
  unfolding handle_accept_request
  accept-first u d f h e = rw h (ground (arith, found_any (urls.url_text u) d f e, save_lem f d))

  -- An entry that does not name both actors of the follow f
  abbrev pub Mismatch : FollowRow → Object → Type 0
  Mismatch f (iri u) = is_follow_activity_iri u ≡ false
  Mismatch f (follow e) =
      (names store urls e.actor f.actor.actor_iri ≡ false)
      ⊎ (names store urls e.object f.target_actor.actor_iri ≡ false)
  Mismatch f other_object = Unit {0}

  Mismatch-step :
      (f : FollowRow) (o : Object) (d : D)
      → store.first_follow (with_iri []) d ≡ found f
      → Mismatch f o
      → (accept_object store urls o d ≡ (d, ok tt))
        ⊎ (accept_object store urls o d ≡ (d, err other_error))
  unfolding accept_object
  Mismatch-step f (iri u) d e h = inl (rw h)
  Mismatch-step f other_object d e h = inl refl
  Mismatch-step f (follow g) d e h = elim (Option-cases g.id) [
    | inl n ↦ inr (ground arith)
    | inr (u, p) ↦ inr (ground (arith, found_any (urls.url_text u) d f e))
  ]

  accept_all-Mismatch :
      (f : FollowRow) (os : List Object) (d : D)
      → store.first_follow (with_iri []) d ≡ found f
      → All (Mismatch f) os
      → (accept_all store urls os d).0 ≡ d
  unfolding accept_all
  accept_all-Mismatch f [] d e h = refl
  accept_all-Mismatch f (o ∷ os) d e h = elim (Mismatch-step f o d e h.0) [
    | inl p ↦ rw p (accept_all-Mismatch f os d e h.1)
    | inr p ↦ rw p
  ]

  -- If First finds a follow with no condition, then an Accept leaves the database as it is if its
  -- IRIs do not have the form of a follow's and each Follow in it names another actor, or another
  -- target, than the follow that was found.
  pub accept-Mismatch :
      (f : FollowRow) (os : List Object) (d : D)
      → store.first_follow (with_iri []) d ≡ found f
      → All (Mismatch f) os
      → (handle_accept_request store urls (some os) d).0 ≡ d
  unfolding handle_accept_request
  accept-Mismatch f os d e h = accept_all-Mismatch f os d e h
