-- ===== src/Federation/ActorService.antt =====
-- services/actor.go and instance.BuildAccountIri. `fetch` is the signed request for an account's
-- IRI together with FetchAccountAsActor.
use shig.Common.{Text, Option, [], ◌∷◌}
use shig.Federation.{Url, Urls, Config, Actor, Store, Run, ◌>>=◌, give, or_fail, of_query, wrote}
use shig.Federation.Strings.{codes, join_path}

unfoldable pub build_account_iri : Url → Text → Url
unfolding join_path
build_account_iri u account = record u {
  path = join_path u.path (codes "federation" ∷ codes "accounts" ∷ account ∷ []);
}

-- The requests to other instances
abbrev pub Fetch : Type 0
Fetch = Actor → Text → Option Actor

module _ {D : Type 0} (store : Store D) where
  -- ActorRepository.GetActorByActorIRI
  unfoldable pub get_actor_by_actor_iri : Text → Run D Actor
  get_actor_by_actor_iri i d = give (of_query (store.first_actor_where_iri i d)) d

  -- ActorRepository.Upsert
  unfoldable pub upsert : Actor → Run D Actor
  upsert a d = wrote (store.upsert_actor a d)

  unfoldable pub get_local_instance_actor : Urls → Config → Run D Actor
  unfolding get_actor_by_actor_iri build_account_iri
  get_local_instance_actor urls config =
      get_actor_by_actor_iri
        (urls.url_text (build_account_iri config.instance_url config.instance_username))

  unfoldable pub create_actor_from_remote_account : Fetch → Text → Actor → Run D Actor
  unfolding upsert
  create_actor_from_remote_account fetch account_iri local = do
    a ← give (or_fail (fetch local account_iri))
    upsert a
