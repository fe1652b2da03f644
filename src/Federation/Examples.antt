-- ===== src/Federation/Examples.antt =====
-- A small database and network, and one input for each theorem on follows and registrations.
use shig.Common.{Text, ℕ, ◌+◌, Bool, true, false, [], ◌∷◌, some, none, ◌≡◌, refl, inl}
use shig.Streams.{found, not_found}
use shig.Media.Response.{application_json}
use shig.Media.Request.{Request, content}
use shig.Federation.{Url, Urls, Config, Actor, FollowRow, Store}
use shig.Federation.Strings.{codes}
use shig.Federation.Follow.{
  empty_actor, is_follow_activity_iri, build_follow_activity_iri, starts_hex, state_text, accepted,
}
use shig.Federation.Follow.Iri.{is_follow-build}
use shig.Federation.Accept.{iri, follow, names, handle_accept_request}
use shig.Federation.Accept.Sender.{accept-first, accept-Mismatch}
use shig.Federation.ActorService.{Fetch}
use shig.Federation.Register.{
  FollowMessage, World, RegisterPayload, Registration, registration, get_json_account_payload,
  register, follow_remote,
}
use shig.Federation.Register.Token.{register-forbidden, register-any_token}

abbrev url : Text → Url
url path = record { scheme = []; host = codes "h"; path = path }

abbrev urls : Urls
urls = record { parse_url = λ t. some (url t); url_text = λ u. u.path }

abbrev local_actor : Actor
local_actor = record empty_actor {
  id = 1;
  actor_type = codes "Person";
  actor_iri = codes "shig";
  inbox_iri = codes "inbox";
}

abbrev sent_follow : FollowRow
sent_follow = record {
  id = 1;
  iri = codes "f";
  actor_id = 1;
  target_actor_id = 1;
  state = codes "pending";
  actor = local_actor;
  target_actor = local_actor;
}

-- The state counts the writes.
abbrev store : Store ℕ
store = record {
  first_follow = λ f d. found sent_follow;
  create_follow = λ f d. (d + 1, true);
  save_follow = λ f d. (d + 1, true);
  first_actor = λ a d. found local_actor;
  first_actor_where_iri = λ i d. found local_actor;
  upsert_actor = λ a d. (d + 1, some a);
  first_instance_where_actor = λ i d. not_found;
  create_instance = λ i d. (d + 1, some i);
  upsert_video = λ v d. (d + 1, some v);
  delete_video_where_iri = λ i d. (d + 1, true);
  first_follow_by_key = λ f g d e. refl;
  first_actor_by_key = λ f g d e. refl;
}

abbrev hex : Text
hex = codes "38d45114-f79b-41be-9fbd-655ccf52e276"

abbrev follow_url : Url
follow_url = url (codes "/federation/follow/38d45114-f79b-41be-9fbd-655ccf52e276")

follow_url_is_follow : is_follow_activity_iri follow_url ≡ true
unfolding is_follow_activity_iri
follow_url_is_follow = refl

accept-first_example :
    (handle_accept_request store urls (some (iri follow_url ∷ [])) 0).0
    ≡ (store.save_follow (record sent_follow { state = state_text accepted }) 0).0
accept-first_example = accept-first store urls follow_url 0 sent_follow follow_url_is_follow refl

no_names : names store urls none local_actor.actor_iri ≡ false
unfolding names
no_names = refl

accept-Mismatch_example :
    (handle_accept_request store urls
      (some (follow (record { id = some follow_url; actor = none; object = none }) ∷ []))
      0).0
    ≡ 0
accept-Mismatch_example = accept-Mismatch store urls sent_follow _ 0 refl (inl no_names, tt)

is_follow-build_example :
    is_follow_activity_iri (build_follow_activity_iri (url []) hex) ≡ starts_hex 36 hex
is_follow-build_example = is_follow-build (url []) hex (inl refl)

abbrev config : Config
config = record {
  enable = true;
  is_private = false;
  https = true;
  instance_url = url [];
  instance_username = codes "shig";
  register_token = codes "secret";
}

abbrev payload : RegisterPayload
payload = record { account_url = codes "a"; register_token = codes "wrong" }

abbrev wrong : Registration
wrong = record { account_iri = url (codes "a"); token = codes "wrong" }

abbrev fetch : Fetch
fetch a i = some (record local_actor { actor_iri = i })

abbrev world : World ℕ
world = record { database = 0; outbound = [] }

abbrev register_request : Request
register_request = record {
  space = none;
  id = none;
  content_type = some application_json;
  body = content [];
  principal = none;
  cookie = none;
  saves = true;
  writes = true;
}

wrong_decoded :
    get_json_account_payload (λ _. some payload) (λ t. some (url t)) register_request
    ≡ registration wrong
unfolding get_json_account_payload
wrong_decoded = refl

abbrev all_sign : FollowMessage → Bool
all_sign _ = true

register-forbidden_example :
    ((register store urls fetch all_sign
        (λ _. some payload)
        (λ t. some (url t))
        config
        hex
        register_request
        world).response.status
      ≡ some 403)
    × ((register store urls fetch all_sign
          (λ _. some payload)
          (λ t. some (url t))
          config
          hex
          register_request
          world).state
        ≡ (follow_remote store urls fetch all_sign config hex (url (codes "a")) world).0)
register-forbidden_example =
    register-forbidden store urls fetch all_sign (λ _. some payload) (λ t. some (url t)) config hex
      register_request world wrong refl wrong_decoded (λ e. cc e)

-- The state is not the one before: the follow is stored and sent.
follow_remote_sends :
    (follow_remote store urls fetch all_sign config hex (url (codes "a")) world).0.database ≡ 2
unfolding follow_remote
follow_remote_sends = refl

register-any_token_example :
    (register store urls fetch all_sign
      (λ _. some payload)
      (λ t. some (url t))
      (record config { register_token = codes "wrong" })
      hex
      register_request
      world).state
    ≡ (register store urls fetch all_sign
        (λ _. some payload)
        (λ t. some (url t))
        config
        hex
        register_request
        world).state
register-any_token_example =
    register-any_token store urls fetch all_sign (λ _. some payload) (λ t. some (url t)) config
      (codes "wrong") hex register_request world
