-- ===== src/Federation/Connector/Login.antt =====
-- Under which name an instance logs in to another, and what the other answers to an offer.
use shig.Common.{
  Text, Uuid, ◌==◌, false, List, [], ◌∷◌, ◌++◌, none, some, All, ◌≡◌, ◌∙◌, refl, arith, ap,
  Bool-cases, inl, inr,
}
use shig.Streams.{ok}
use shig.Media.Response.{Response, new_response}
use shig.Federation.{Url, Urls, Actor}
use shig.Federation.Strings.{split}
use shig.Federation.StreamAccess.{federated_id}
use shig.Federation.Connector.{
  ApiClient, Reply, last, preferred_name_from_actor, new_host, get_user, post_whip_offer,
  post_whep_offer, fed_whip, fed_whep,
}

abbrev pub NoSlash : Text → Type 0
NoSlash t = All (λ c. (c == b'/') ≡ false) t

split-NoSlash : (name : Text) → NoSlash name → split b'/' name ≡ name ∷ []
unfolding split
split-NoSlash [] h = refl
split-NoSlash (c ∷ s) h = ground (arith, split-NoSlash s h.1)

-- The last part is what stands after the last slash.
split-last :
    (p name : Text)
    → NoSlash name
    → (t : Text) × (ts : List Text) × (split b'/' (p ++ (b'/' ∷ name)) ≡ t ∷ (ts ++ (name ∷ [])))
unfolding split
split-last [] name h = ([], [], ap (λ x. [] ∷ x) (split-NoSlash name h))
split-last (c ∷ p) name h =
    let (t, ts, e) = split-last p name h in
    elim (Bool-cases (c == b'/')) [
      | inl y ↦ ([], t ∷ ts, ground arith)
      | inr n ↦ (c ∷ t, ts, ground arith)
    ]

last-append : (t : Text) (ts : List Text) (x : Text) → last (t ∷ (ts ++ (x ∷ []))) ≡ some x
unfolding last
last-append t [] x = refl
last-append t (u ∷ ts) x = last-append u ts x

preferred_name-path :
    (u : Url) (p name : Text)
    → u.path ≡ p ++ (b'/' ∷ name)
    → NoSlash name
    → preferred_name_from_actor u ≡ name
unfolding preferred_name_from_actor
preferred_name-path u p name e h =
    let (t, ts, s) = split-last p name h in
    let q : last (split b'/' u.path) ≡ some name =
      ap (λ x. last (split b'/' x)) e ∙ ap last s ∙ last-append t ts name in
    ground arith

-- An instance logs in to another under the name that the other builds for its actor: the user of a
-- host whose actor has the IRI u, with the preferred username, which has no slash, as its path's last part, is
-- buildFederatedId of the actor.
pub get_user-federated_id :
    (urls : Urls) (create_instance_id : Text → Uuid) (u : Url) (token p : Text) (a : Actor)
    → u.path ≡ p ++ (b'/' ∷ a.preferred_username)
    → NoSlash a.preferred_username
    → urls.parse_url a.actor_iri ≡ some u
    → federated_id urls a ≡ ok (get_user (new_host create_instance_id u token)).user_id
unfolding federated_id get_user new_host
get_user-federated_id urls create_instance_id u token p a e h q =
    ground (arith, preferred_name-path u p a.preferred_username e h)

-- What a server sends for a response; net/http sends 200 where no status is set.
abbrev pub reply_of : Response → Reply
reply_of w = record { status = elim w.status [ none ↦ 200 | some c ↦ c ]; body = some [] }

-- An offer to an instance whose handlers are those of this program is refused by the client.
pub offers-refused :
    (offer : Text) (a : ApiClient)
    → (post_whip_offer (λ _ _ _. some (reply_of (fed_whip new_response))) offer a ≡ none)
      × (post_whep_offer (λ _ _ _. some (reply_of (fed_whep new_response))) offer a ≡ none)
unfolding post_whip_offer post_whep_offer fed_whip fed_whep new_response
offers-refused offer a = (refl, refl)
