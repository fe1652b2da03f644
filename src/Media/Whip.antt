-- ===== src/Media/Whip.antt =====
-- internal/media/whip_handler.go and whep_handler.go, with internal/stream/live_lobby_service.go. The
-- lobbies stand behind the interface of live_lobby_manager.go.
pub mod Created
pub mod Manager
use shig.Common.{Uuid, Text, Option, none, some, Bool, true, false, ℕ, if◌then◌else◌, length}
use shig.Storage.{Memory}
use shig.Auth.RequestToken.{set_new_request_token}
use shig.Streams.{Database}
use shig.Media.Response.{
  Response, new_response, set_header, with_type, application_sdp, write_header, write, http_error,
  message, bytes, error, error_user, session_already_exists, error_build_whip, error_build_whep,
  error_build_response, Message,
}
use shig.Media.Request.{
  Request, Handled, Step, stop, go, ◌>>=◌, finish, handled, panic, or_stop, get_live_stream,
  or_resource, get_sdp_payload, payload, refused, Payload, get_user_from_session, start_session,
  delete_session,
}

-- `no_resource` is a nil resource with no error, which the service dereferences.
pub data Joined : Type 0 where
  joined : Text → Text → Joined
  already_exists join_error no_resource : Joined

pub data Left : Type 0 where
  left : Bool → Left
  not_active leave_error : Left

-- The methods of the lobby manager: the lobby, the user, and what each needs.
pub record LobbyManager (S : Type 0) : Type 0 where
  pub create_ingress : Uuid → Uuid → Text → S → S × Joined
  pub create_egress : Uuid → Uuid → Text → S → S × Joined
  pub leave_lobby : Uuid → Uuid → S → S × Left

-- What the handlers share: the lobbies, the database and the request tokens.
pub record World (S D : Type 0) : Type 0 where
  pub lobbies : S
  pub database : D
  pub tokens : Memory Text

abbrev pub Out : Type 0 → Type 0 → Type 0
Out S D = Handled (World S D)

module _ {S D : Type 0} where
  -- The response to an answer of the lobby: what is set after WriteHeader is not sent.
  unfoldable pub answered :
      (Text → Text) → Request → Message → World S D → Response → Joined → Out S D
  unfolding handled panic http_error write_header write set_header
  answered md5 r m world w already_exists =
      handled world (http_error session_already_exists 409 (write_header 409 w))
  answered md5 r m world w no_resource = panic world w
  answered md5 r m world w join_error = handled world (http_error m 500 w)
  answered md5 r m world w (joined answer resource) =
      let sent =
        set_header (λ h. record h { etag = some (md5 answer); location = some resource })
          (write_header 201 w) in
      let w' = write (bytes answer) sent in
      handled world (
        if r.writes
        then set_header (λ h. record h { content_length = some (length answer) }) w'
        else http_error error_build_response 500 w')

  bad_payload : Bool → Message → World S D → Response → Out S D
  unfolding handled
  bad_payload true m world w = handled world (write (message m) (write_header 400 w))
  bad_payload false m world w = handled world (write_header 400 w)

  or_bad_payload : Bool → Payload → World S D → Response → Step (Out S D) Text
  unfolding bad_payload
  or_bad_payload told (payload t) world w = go t
  or_bad_payload told (refused m) world w = stop (bad_payload told m world w)

  module _ (db : Database D) (lobby : LobbyManager S) (parse : Text → Option Uuid)
      (md5 : Text → Text) where
    join :
        (Uuid → Uuid → Text → S → S × Joined)
        → Message
        → Request
        → World S D
        → Response
        → Option Uuid
        → Uuid
        → Text
        → Out S D
    unfolding answered panic
    join create m r world w none user offer = panic world w
    join create m r world w (some id) user offer =
        let (s, j) = create id user offer world.lobbies in
        answered md5 r m (record world { lobbies = s }) w j

    -- whip: `fresh` is the new request token. A session that cannot be started does not stop it.
    unfoldable pub whip : Text → ℕ → Request → World S D → Out S D
    unfolding join or_bad_payload finish or_resource or_stop set_header new_response http_error
        write
    whip fresh now r world =
        let w0 = set_header (with_type application_sdp) new_response in
        let w = if start_session parse r then w0 else http_error error 500 w0 in
        finish (do
          s ← or_resource world w (get_live_stream db parse r world.database)
          offer ← or_bad_payload true (get_sdp_payload r) world w
          user ← or_stop r.principal (handled world (write_header 400 w))
          user_id ← or_stop (parse user) (handled world (http_error error_user 400 w))
          let world' : World S D = record world {
            tokens = set_new_request_token world.tokens user fresh now;
          }
          let w' = set_header (λ h. record h { request_token = some fresh }) w
          go (join lobby.create_ingress error_build_whip r world' w' s.lobby user_id offer))

    unfoldable pub whep : Request → World S D → Out S D
    unfolding join or_bad_payload finish or_resource or_stop get_user_from_session set_header
        new_response
    whep r world =
        let w = set_header (with_type application_sdp) new_response in
        finish (do
          user ← get_user_from_session world r w
          user_id ← or_stop (parse user) (handled world (http_error error_user 400 w))
          s ← or_resource world w (get_live_stream db parse r world.database)
          offer ← or_bad_payload false (get_sdp_payload r) world w
          go (join lobby.create_egress error_build_whep r world w s.lobby user_id offer))

    left_response : Request → World S D → Response → Left → Out S D
    unfolding handled http_error write_header write
    left_response r world w not_active = handled world (write_header 404 w)
    left_response r world w leave_error = handled world (http_error error 500 w)
    left_response r world w (left false) = handled world (http_error error 500 w)
    left_response r world w (left true) =
        handled world (write_header 200 (if delete_session r then w else http_error error 500 w))

    leave : Request → World S D → Response → Option Uuid → Uuid → Out S D
    unfolding left_response panic
    leave r world w none user = panic world w
    leave r world w (some id) user =
        let (s, l) = lobby.leave_lobby id user world.lobbies in
        left_response r (record world { lobbies = s }) w l

    -- whipDelete
    unfoldable pub whip_delete : Request → World S D → Out S D
    unfolding leave finish or_resource or_stop get_user_from_session set_header new_response
    whip_delete r world =
        let w = set_header (with_type application_sdp) new_response in
        finish (do
          user ← get_user_from_session world r w
          user_id ← or_stop (parse user) (handled world (http_error error_user 400 w))
          s ← or_resource world w (get_live_stream db parse r world.database)
          go (leave r world w s.lobby user_id))
