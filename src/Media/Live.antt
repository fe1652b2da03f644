-- ===== src/Media/Live.antt =====
-- internal/media/live_handler.go: publishing the live stream of a lobby. The RTMP calls of the lobby
-- manager stand behind an interface; JSON is decoded and encoded by parameters.
pub mod Owner
use shig.Common.{Uuid, Text, Text-discrete, Option, none, some, Bool, ite, if◌then◌else◌}
use shig.Auth.RequestToken.{get_principal}
use shig.Streams.{LiveStream, Database}
use shig.Media.Response.{
  Response, new_response, set_header, with_type, application_json, MediaType, write_header, write,
  http_error, bytes, forbidden, internal_error, invalid_payload, error_start_live_stream,
  error_stop_live_stream, stream_invalid,
}
use shig.Media.Request.{
  Request, no_body, unreadable, content, Step, go, ◌>>=◌, finish, handled, panic, or_stop,
  get_live_stream, or_resource, session_error, session_user,
}
use shig.Media.Whip.{World, Out}

pub record LiveManager (S : Type 0) : Type 0 where
  pub start_live_stream : Uuid → Text → Text → Uuid → S → S × Bool
  pub stop_live_stream : Uuid → Uuid → S → S × Bool

-- getJsonPayload and Decode: no body is an empty one, which is no JSON.
unfoldable pub get_json_payload : {A : Type 0} → (Text → Option A) → Request → Option A
get_json_payload decode r = elim r.content_type [
  | some MediaType.application_json ↦ elim r.body [
    | no_body ↦ none
    | unreadable ↦ none
    | content t ↦ decode t
  ]
  | _ ↦ none
]

-- What readingRequestData returns: no stream and no error if the user is not the account's.
pub record RequestData : Type 0 where
  pub response : Response
  pub stream : Option LiveStream
  pub user_id : Uuid

unfoldable pub lobby_of : Option LiveStream → Option Uuid
lobby_of none = none
lobby_of (some s) = s.lobby

module _ {S D : Type 0} where
  -- getUserFromSession and the caller's httpError after its error
  unfoldable pub or_forbidden : World S D → Request → Response → Step (Out S D) Text
  unfolding or_stop handled http_error write session_error
  or_forbidden world r w =
      let p = get_principal r.cookie in
      or_stop (session_user p) (handled world (http_error forbidden 403 (session_error p w)))

  started : World S D → Response → S × Bool → Out S D
  unfolding handled
  started world w (s, ok) =
      handled (record world { lobbies = s })
        (if ok then write_header 201 w else http_error error_start_live_stream 500 w)

  stopped : World S D → Response → S × Bool → Out S D
  unfolding handled
  stopped world w (s, ok) =
      handled (record world { lobbies = s })
        (if ok then write_header 201 w else http_error error_stop_live_stream 400 w)

  module _ (db : Database D) (parse : Text → Option Uuid) where
    own_data : World S D → LiveStream → Text → Response → Step (Out S D) RequestData
    unfolding or_stop handled
    own_data world s user w = do
      id ← or_stop (parse user) (handled world (http_error internal_error 500 w))
      go (record { response = w; stream = some s; user_id = id })

    -- The error of the last test is nil, so it is no error to the caller.
    unfoldable pub reading_request_data :
        Request → World S D → Response → Step (Out S D) RequestData
    unfolding own_data or_stop panic or_resource or_forbidden http_error write_header write
        set_header
    reading_request_data r world w = do
      s ← or_resource world w (get_live_stream db parse r world.database)
      user ← or_forbidden world r w
      account ← or_stop s.account (panic world w)
      ite (Text-discrete account.uuid user) (own_data world s user w)
          (go (record { response = http_error forbidden 403 w; stream = none; user_id = 0 }))

    -- publishLiveStream
    unfoldable pub publish_live_stream :
        LiveManager S → (Text → Option (Text × Text)) → Request → World S D → Out S D
    unfolding finish or_stop handled panic started lobby_of reading_request_data new_response
    publish_live_stream live decode r world =
        let w = set_header (with_type application_json) new_response in
        finish (do
          d ← reading_request_data r world w
          info ←
              or_stop (get_json_payload decode r)
                (handled world (http_error invalid_payload 400 d.response))
          lobby ← or_stop (lobby_of d.stream) (panic world d.response)
          go (
              started world d.response
                (live.start_live_stream lobby info.0 info.1 d.user_id world.lobbies)))

    -- stopLiveStream
    unfoldable pub stop_live_stream : LiveManager S → Request → World S D → Out S D
    unfolding finish or_stop panic stopped lobby_of reading_request_data new_response
    stop_live_stream live r world =
        let w = set_header (with_type application_json) new_response in
        finish (do
          d ← reading_request_data r world w
          lobby ← or_stop (lobby_of d.stream) (panic world d.response)
          go (stopped world d.response (live.stop_live_stream lobby d.user_id world.lobbies)))

    -- getStatusOfLiveStream
    unfoldable pub get_status_of_live_stream : (Option Uuid → Text) → Request → World S D → Out S D
    unfolding finish handled
    get_status_of_live_stream encode r world =
        let w = set_header (with_type application_json) new_response in
        finish (do
          s ← or_resource world w (get_live_stream db parse r world.database)
          user ← or_forbidden world r w
          let w' = write (bytes (encode s.lobby)) w
          go (
              handled world
                (write_header 200 (if r.writes then w' else http_error stream_invalid 500 w'))))
