-- ===== src/Media/StreamResource.antt =====
-- internal/media/stream_handler.go: one stream as a resource. The router names none of createStream,
-- updateStream and deleteStream. The principal of the context is a field of the request, as is what
-- the body gives; JSON, uuid.New and the location's text are parameters.
pub mod Writing
use shig.Common.{true, false, Uuid, Text, Option, none, some, if◌then◌else◌}
use shig.Streams.{LiveStream, Database, Result, ok, err, panicked}
use shig.Streams.Service
use shig.Media.Response.{
  Response, new_response, set_header, with_type, application_json, write_header, write, http_error,
  bytes, stream_invalid, error_create_stream, error_update_stream, error_delete_stream, Message,
}
use shig.Media.Request.{
  Request, Handled, go, ◌>>=◌, finish, handled, or_stop, get_live_stream, or_resource,
  resource_error, space_request_id_not_found,
}
use shig.Media.Live.{get_json_payload}

unfoldable pub with_title : LiveStream → LiveStream
with_title s = elim s.video [ none ↦ s | some name ↦ record s { title = name } ]

-- The end of a handler that writes: `done` is the response to a success.
unfoldable pub replied :
    {D : Type 0} → Message → (Uuid → Response → Response) → Response → D × Result Uuid → Handled D
replied m done w (d, ok u) = record { response = done u w; state = d; panics = false }
replied m done w (d, err panicked) = record { response = w; state = d; panics = true }
replied m done w (d, err e) = record { response = http_error m 500 w; state = d; panics = false }

module _ {D : Type 0} (db : Database D) (parse : Text → Option Uuid) where
  unfoldable pub get_stream : (LiveStream → Text) → Request → D → Handled D
  unfolding finish handled with_title
  get_stream encode r d =
      let w = set_header (with_type application_json) new_response in
      finish (do
        s ← or_resource d w (get_live_stream db parse r d)
        let w' = write (bytes (encode (with_title s))) w
        go (handled d (if r.writes then w' else http_error stream_invalid 500 w')))

  unfoldable pub delete_stream : Request → D → Handled D
  unfolding finish or_stop resource_error handled new_response set_header write_header
  delete_stream r d =
      let w = set_header (with_type application_json) new_response in
      finish (do
        user ← or_stop r.principal (handled d (write_header 500 w))
        id ← or_stop r.id (handled d (write_header 400 w))
        go (
            replied error_delete_stream (λ u. write_header 200) w
              (Service.delete db parse id user d)))

  unfoldable pub create_stream :
      (Text → Option LiveStream) → (Uuid → Text) → Uuid → Request → D → Handled D
  unfolding finish or_stop resource_error handled new_response set_header write_header
  create_stream decode location fresh r d =
      let w = set_header (with_type application_json) new_response in
      finish (do
        user ← or_stop r.principal (handled d (write_header 500 w))
        space ← or_stop r.space (resource_error d w space_request_id_not_found)
        s ← or_stop (get_json_payload decode r) (handled d (write_header 400 w))
        go (
            replied error_create_stream
              (λ u v.
                write_header 201 (set_header (λ h. record h { location = some (location u) }) v))
              w (Service.create_stream db parse fresh s space user d)))

  unfoldable pub update_stream : (Text → Option LiveStream) → Request → D → Handled D
  unfolding finish or_stop resource_error handled new_response set_header write_header
  update_stream decode r d =
      let w = set_header (with_type application_json) new_response in
      finish (do
        user ← or_stop r.principal (handled d (write_header 500 w))
        space ← or_stop r.space (resource_error d w space_request_id_not_found)
        s ← or_stop (get_json_payload decode r) (handled d (write_header 400 w))
        go (
            replied error_update_stream (λ u. write_header 204) w
              (Service.update_stream db parse s space user d)))
