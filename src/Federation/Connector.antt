-- ===== src/Federation/Connector.antt =====
-- internal/lobby/federation/connector.go and host.go, internal/lobby/clients/api_client.go, and the
-- handlers of internal/media/fed_whip_handler.go and fed_whep_handler.go: how a lobby asks the
-- instance that hosts its stream. `post` is a request with its answer, or `none` for an error.
pub mod Login
use shig.Common.{
  Text, Text-discrete, Uuid, ℕ, ◌==◌, Bool, true, false, ite, if◌then◌else◌, List, [], ◌∷◌, ◌++◌,
  Option, none, some,
}
use shig.Media.Response.{Response}
use shig.Auth.Account.{User}
use shig.Federation.{Url, Urls}
use shig.Federation.Strings.{codes, split}

pub record Host : Type 0 where
  pub actor_iri : Url
  pub actor_id : Text
  pub token : Text
  pub instance_id : Uuid

last : List Text → Option Text
last [] = none
last (t ∷ []) = some t
last (t ∷ u ∷ ts) = last (u ∷ ts)

unfoldable pub preferred_name_from_actor : Url → Text
unfolding last
preferred_name_from_actor actor_iri = elim (last (split b'/' actor_iri.path)) [
  | none ↦ codes "shig"
  | some name ↦ name
]

-- `create_instance_id` is CreateShigInstanceId.
unfoldable pub new_host : (Text → Uuid) → Url → Text → Host
new_host create_instance_id actor_iri token =
    let actor_id = preferred_name_from_actor actor_iri ++ (b'@' ∷ actor_iri.host) in
    record {
      actor_iri = actor_iri;
      actor_id = actor_id;
      token = token;
      instance_id = create_instance_id actor_id;
    }

unfoldable pub get_user : Host → User
get_user h = record { user_id = h.actor_id; token = h.token }

pub record ApiClient : Type 0 where
  pub url : Text
  pub space_id : Text
  pub stream_id : Text
  pub bearer : Text

-- A body that could not be read is `none`.
pub record Reply : Type 0 where
  pub status : ℕ
  pub body : Option Text

-- Login: `token_of` reads the JWT of the answer's JSON.
unfoldable pub login :
    (Text → User → Option Reply) → (Text → Option Text) → User → ApiClient → ApiClient × Option Text
login post token_of user a = elim (post (a.url ++ codes "/authenticate") user) [
  | none ↦ (a, none)
  | some r ↦
      if r.status == 200
      then (elim r.body [
        | none ↦ (a, none)
        | some b ↦ elim (token_of b) [
          | none ↦ (a, none)
          | some jwt ↦ (record a { bearer = codes "Bearer " ++ jwt }, some jwt)
        ]
      ])
      else (a, none)
]

-- doOfferRequest
unfoldable pub do_offer_request :
    (Text → Text → Text → Option Reply) → Text → Text → ApiClient → Option Text
do_offer_request post url offer a = elim (post url a.bearer offer) [
  | none ↦ none
  | some r ↦ if r.status == 201 then r.body else none
]

offer_url : Text → ApiClient → Text
offer_url end a =
    a.url
    ++ (codes "/fed/space/" ++ (a.space_id ++ (codes "/stream/" ++ (a.stream_id ++ (b'/' ∷ end)))))

unfoldable pub post_whep_offer :
    (Text → Text → Text → Option Reply) → Text → ApiClient → Option Text
unfolding do_offer_request offer_url
post_whep_offer post offer a = do_offer_request post (offer_url (codes "whep") a) offer a

unfoldable pub post_whip_offer :
    (Text → Text → Text → Option Reply) → Text → ApiClient → Option Text
unfolding do_offer_request offer_url
post_whip_offer post offer a = do_offer_request post (offer_url (codes "whip") a) offer a

-- fedWhip, fedWhep: the handlers write nothing.
unfoldable pub fed_whip : Response → Response
fed_whip w = w

unfoldable pub fed_whep : Response → Response
fed_whep w = w

pub record Connector : Type 0 where
  pub home_actor_iri : Url
  pub api : ApiClient
  pub host : Host

unfoldable pub new_connector : (Text → Uuid) → Url → Url → Text → Text → Text → Connector
unfolding new_host
new_connector create_instance_id home host space live_stream token = record {
  home_actor_iri = home;
  api = record { url = host.host; space_id = space; stream_id = live_stream; bearer = [] };
  host = new_host create_instance_id host token;
}

-- NewOfferIngress and NewOfferEgress, as far as the connector sets them
pub record OfferCommand : Type 0 where
  pub user : Uuid
  pub cancelled : Bool

-- BuildIngress, BuildEgress: the deferred cancel runs before the command is given back.
unfoldable pub build_command :
    (Text → User → Option Reply)
    → (Text → Option Text)
    → Connector
    → Connector × Option OfferCommand
unfolding login get_user
build_command post token_of c =
    let (api, t) = login post token_of (get_user c.host) c.api in
    (
      record c { api = api },
      elim t [
        | none ↦ none
        | some jwt ↦ some (record { user = c.host.instance_id; cancelled = true })
      ],
    )

unfoldable pub is_this_instance_live_stream_host : Urls → Connector → Bool
is_this_instance_live_stream_host urls c =
    ite (Text-discrete (urls.url_text c.home_actor_iri) (urls.url_text c.host.actor_iri)) true false
