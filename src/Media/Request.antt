-- ===== src/Media/Request.antt =====
-- internal/media/media_queries.go, payload.go and auth_session.go, and internal/auth/session.go: what
-- the handlers read of a request. The variables of the route, the answer of the cookie store, whether
-- the session is saved and what reading the body gives are fields of the request.
pub mod Steps
use shig.Common.{Uuid, Text, Option, none, some, Bool, true, false, is_some, ◌&&◌}
use shig.Auth.RequestToken.{
  Values, Principal, not_read, not_authenticated, no_user, user, get_principal,
}
use shig.Streams.{
  LiveStream, Database, stream_not_found, stream_not_part_of_space, user_not_owner_of_stream,
  other_error, panicked, Result, ok, err,
}
use shig.Streams.Service.{find_by_uuid_and_space_identifier}
use shig.Media.Response.{
  MediaType, application_sdp, Response, write_header, http_error, Message, invalid_content_type,
  empty_payload, invalid_payload, error_get_media, no_session, no_user_session, internal_error,
}

pub data Body : Type 0 where
  no_body unreadable : Body
  content : Text → Body

pub record Request : Type 0 where
  pub space : Option Text
  pub id : Option Text
  pub content_type : Option MediaType
  pub body : Body
  pub principal : Option Text
  pub cookie : Option Values
  pub saves : Bool
  pub writes : Bool

-- How a handler ends: the response, its state, and whether it panicked.
pub record Handled (S : Type 0) : Type 0 where
  pub response : Response
  pub state : S
  pub panics : Bool

-- A handler's next value, or its early return.
pub data Step (E A : Type 0) : Type 0 where
  stop : E → Step E A
  go : A → Step E A

infixl 5 ◌>>=◌
abbrev pub ◌>>=◌ : {E A B : Type 0} → Step E A → (A → Step E B) → Step E B
go a >>= f = f a
stop e >>= f = stop e

unfoldable pub finish : {E : Type 0} → Step E E → E
finish (stop e) = e
finish (go e) = e

module _ {S : Type 0} where
  unfoldable pub handled : S → Response → Handled S
  handled s w = record { response = w; state = s; panics = false }

  unfoldable pub panic : S → Response → Handled S
  panic s w = record { response = w; state = s; panics = true }

  unfoldable pub or_stop : {A : Type 0} → Option A → Handled S → Step (Handled S) A
  or_stop none h = stop h
  or_stop (some a) h = go a

-- The errors of getLiveStream that handleResourceError tells apart.
pub data ResourceError : Type 0 where
  space_request_id_not_found stream_request_id_not_found not_found_stream : ResourceError
  other_resource nil_resource : ResourceError

pub data Got : Type 0 where
  got : LiveStream → Got
  missing : ResourceError → Got

to_got : Result LiveStream → Got
to_got (ok s) = got s
to_got (err stream_not_found) = missing not_found_stream
to_got (err panicked) = missing nil_resource
to_got (err stream_not_part_of_space) = missing other_resource
to_got (err user_not_owner_of_stream) = missing other_resource
to_got (err other_error) = missing other_resource

-- handleResourceError; nil_resource is no error but a panic.
unfoldable pub handle_resource_error : ResourceError → Response → Response
handle_resource_error not_found_stream w = write_header 404 w
handle_resource_error space_request_id_not_found w = write_header 400 w
handle_resource_error stream_request_id_not_found w = write_header 400 w
handle_resource_error other_resource w = http_error error_get_media 500 w
handle_resource_error nil_resource w = w

unfoldable pub resource_error : {S : Type 0} → S → Response → ResourceError → Handled S
unfolding handle_resource_error handled panic
resource_error s w nil_resource = panic s w
resource_error s w e = handled s (handle_resource_error e w)

module _ {D : Type 0} (db : Database D) (parse : Text → Option Uuid) where
  find_in : Option Text → Text → D → Got
  unfolding to_got
  find_in none space d = missing stream_request_id_not_found
  find_in (some id) space d = to_got (find_by_uuid_and_space_identifier db parse id space d)

  -- getLiveStream, with getSpaceIdentifier
  unfoldable pub get_live_stream : Request → D → Got
  unfolding find_in
  get_live_stream r d = elim r.space [
    | none ↦ missing space_request_id_not_found
    | some space ↦ find_in r.id space d
  ]

-- getLiveStream and the handler's return after its error
unfoldable pub or_resource : {S : Type 0} → S → Response → Got → Step (Handled S) LiveStream
unfolding resource_error
or_resource s w (got x) = go x
or_resource s w (missing e) = stop (resource_error s w e)

pub data Payload : Type 0 where
  payload : Text → Payload
  refused : Message → Payload

-- getSdpPayload
unfoldable pub get_sdp_payload : Request → Payload
get_sdp_payload r = elim r.content_type [
  | some application_sdp ↦ elim r.body [
    | no_body ↦ refused empty_payload
    | unreadable ↦ refused invalid_payload
    | content t ↦ payload t
  ]
  | _ ↦ refused invalid_content_type
]

-- getUserFromSession: the response has the error's status.
unfoldable pub session_error : Principal → Response → Response
session_error not_authenticated w = http_error no_session 403 w
session_error no_user w = http_error no_user_session 403 w
session_error _ w = http_error internal_error 500 w

unfoldable pub session_user : Principal → Option Text
session_user (user t) = some t
session_user _ = none

unfoldable pub get_user_from_session : {S : Type 0} → S → Request → Response → Step (Handled S) Text
unfolding session_error session_user handled or_stop
get_user_from_session s r w =
    let p = get_principal r.cookie in or_stop (session_user p) (handled s (session_error p w))

-- StartSession: whether it returns no error
unfoldable pub start_session : (Text → Option Uuid) → Request → Bool
start_session parse r = elim r.principal [
  | none ↦ false
  | some t ↦ is_some (parse t) && is_some r.cookie && r.saves
]

has_session : Principal → Bool
has_session not_read = false
has_session not_authenticated = false
has_session _ = true

-- DeleteSession: whether it returns no error
unfoldable pub delete_session : Request → Bool
unfolding has_session
delete_session r = has_session (get_principal r.cookie) && r.saves
