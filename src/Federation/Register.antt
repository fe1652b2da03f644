-- ===== src/Federation/Register.antt =====
-- handler/register.go, with outbox/sender.go (SendFollowRequest, SendToUser) and Follow.ToAS: another
-- instance registers and is followed. Decoding the payload, ParseRequestURI of the unescaped text,
-- and whether a message can be serialised and signed are parameters.
pub mod Token
use shig.Common.{
  Text, Text-discrete, Bool, true, false, ite, if◌then◌else◌, List, [], ◌∷◌, ◌++◌, Option, none,
  some,
}
use shig.Streams.{Result, ok, err, panicked, deref, other_error}
use shig.Media.Response.{
  MediaType, application_json, Response, Message, new_response, set_header, with_type, http_error,
  write_header, no_federation_support, invalid_content_type, invalid_payload, account_iri_invalid,
  no_text,
}
use shig.Media.Request.{Request, content, Handled}
use shig.Federation.{Url, Urls, Config, Actor, FollowRow, Store, Run, ◌>>=◌, give, fail}
use shig.Federation.Follow.{new_follow, add}
use shig.Federation.ActorService.{Fetch, get_local_instance_actor, create_actor_from_remote_account}

-- The Follow activity that goes to the inbox of the actor that is followed.
pub record FollowMessage : Type 0 where
  pub inbox : Url
  pub id : Url
  pub actor : Url
  pub object : Url

-- The database, and the requests that the outbound workers are given.
pub record World (D : Type 0) : Type 0 where
  pub database : D
  pub outbound : List FollowMessage

pub record RegisterPayload : Type 0 where
  pub account_url : Text
  pub register_token : Text

pub record Registration : Type 0 where
  pub account_iri : Url
  pub token : Text

pub data Decoded : Type 0 where
  registration : Registration → Decoded
  refused : Message → Decoded

module _ (decode : Text → Option RegisterPayload) (request_uri : Text → Option Url) where
  decoded : RegisterPayload → Decoded
  decoded p = elim (request_uri p.account_url) [
    | none ↦ refused account_iri_invalid
    | some u ↦ registration (record { account_iri = u; token = p.register_token })
  ]

  read_content : Option Text → Decoded
  unfolding decoded
  read_content none = refused invalid_payload
  read_content (some t) = elim (decode t) [ none ↦ refused invalid_payload | some p ↦ decoded p ]

  -- getJsonAccountPayload
  unfoldable pub get_json_account_payload : Request → Decoded
  unfolding read_content
  get_json_account_payload r = elim r.content_type [
    | some application_json ↦ read_content (elim r.body [ content t ↦ some t | _ ↦ none ])
    | _ ↦ refused invalid_content_type
  ]

-- Follow.ToAS, and the inbox that the message goes to; a nil inbox is dereferenced.
unfoldable pub to_message : Urls → FollowRow → Result FollowMessage
unfolding deref
to_message urls f = elim (urls.parse_url f.actor.actor_iri) [
  | none ↦ err other_error
  | some origin ↦ elim (urls.parse_url f.target_actor.actor_iri) [
    | none ↦ err other_error
    | some target ↦ elim (urls.parse_url f.iri) [
      | none ↦ err other_error
      | some id ↦ elim (urls.parse_url f.target_actor.inbox_iri) [
        | none ↦ err panicked
        | some inbox ↦ ok (record { inbox = inbox; id = id; actor = origin; object = target })
      ]
    ]
  ]
]

module _ {D : Type 0} (store : Store D) (urls : Urls) (fetch : Fetch)
    (signs : FollowMessage → Bool) where
  on_database : {A : Type 0} → Run D A → Run (World D) A
  on_database m w = let (d, r) = m w.database in (record w { database = d }, r)

  -- SendFollowRequest
  unfoldable pub send_follow_request : FollowRow → Run (World D) (Unit {0})
  unfolding to_message
  send_follow_request f = do
    m ← give (to_message urls f)
    if signs m then (λ w. (record w { outbound = w.outbound ++ (m ∷ []) }, ok tt)) else fail

  -- The steps that end with the status 500 where they fail
  unfoldable pub follow_remote : Config → Text → Url → Run (World D) (Unit {0})
  unfolding on_database get_local_instance_actor create_actor_from_remote_account new_follow add
      send_follow_request
  follow_remote config fresh account_iri = do
    local ← on_database (get_local_instance_actor store urls config)
    remote ←
        on_database (create_actor_from_remote_account store fetch (urls.url_text account_iri) local)
    f ← on_database (add store (new_follow urls local remote config.instance_url fresh))
    send_follow_request f

  ended : Response → World D × Result (Unit {0}) → Handled (World D)
  ended w (s, ok u) = record { response = write_header 201 w; state = s; panics = false }
  ended w (s, err panicked) = record { response = w; state = s; panics = true }
  ended w (s, err e) = record { response = write_header 500 w; state = s; panics = false }

  -- The handler after its payload: an error for a wrong token is written, and the handler goes on.
  unfoldable pub registered : Config → Text → Response → Registration → World D → Handled (World D)
  unfolding ended follow_remote
  registered config fresh w p s =
      let w' = ite (Text-discrete p.token config.register_token) w (http_error no_text 403 w) in
      ended w' (follow_remote config fresh p.account_iri s)

  -- GetRegisterHandler
  unfoldable pub register :
      (Text → Option RegisterPayload)
      → (Text → Option Url)
      → Config
      → Text
      → Request
      → World D
      → Handled (World D)
  register decode request_uri config fresh r s =
      let w = set_header (with_type application_json) new_response in
      if config.enable
      then (elim (get_json_account_payload decode request_uri r) [
        | refused m ↦ record { response = http_error m 400 w; state = s; panics = false }
        | registration p ↦ registered config fresh w p s
      ])
      else record {
        response = http_error no_federation_support 405 new_response;
        state = s;
        panics = false;
      }
