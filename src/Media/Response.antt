-- ===== src/Media/Response.antt =====
-- The http.ResponseWriter that the handlers write: the header fields that they
-- set, the status and the header as they were sent, and the chunks that Write was called with. net/http takes the first status;
-- a header that is set later is not sent.
use shig.Common.{Text, ℕ, Option, Bool, true, false, none, some, List, [], ◌∷◌, ◌++◌}

pub data MediaType : Type 0 where
  application_sdp application_json activity_json text_plain other_type : MediaType

pub record Header : Type 0 where
  pub content_type : Option MediaType
  pub content_length : Option ℕ
  pub etag : Option Text
  pub location : Option Text
  pub request_token : Option Text
  pub nosniff : Bool

-- The texts that httpError of internal/media and http.Error of internal/activitypub are called with.
pub data Message : Type 0 where
  error error_user no_session no_user_session internal_error forbidden : Message
  error_get_media session_already_exists error_build_whip error_build_whep : Message
  error_build_response invalid_payload error_start_live_stream : Message
  error_stop_live_stream stream_invalid error_create_stream error_update_stream : Message
  error_delete_stream invalid_content_type empty_payload : Message
  no_federation_support account_iri_invalid account_name_not_found no_text : Message

pub data Chunk : Type 0 where
  message : Message → Chunk
  bytes : Text → Chunk

pub record Response : Type 0 where
  pub header : Header
  pub status : Option ℕ
  pub sent : Option Header
  pub body : List Chunk

unfoldable pub new_response : Response
new_response = record {
  header = record {
    content_type = none;
    content_length = none;
    etag = none;
    location = none;
    request_token = none;
    nosniff = false;
  };
  status = none;
  sent = none;
  body = [];
}

-- w.Header().Set
unfoldable pub set_header : (Header → Header) → Response → Response
set_header f w = record w { header = f w.header }

unfoldable pub with_type : MediaType → Header → Header
with_type t h = record h { content_type = some t }

-- w.WriteHeader
unfoldable pub write_header : ℕ → Response → Response
write_header code w = elim w.status [
  | none ↦ record w { status = some code; sent = some w.header }
  | some c ↦ w
]

-- w.Write: it sends the status 200 if none is sent.
unfoldable pub write : Chunk → Response → Response
unfolding write_header
write c w = let w' = write_header 200 w in record w' { body = w'.body ++ (c ∷ []) }

-- http.Error
unfoldable pub http_error : Message → ℕ → Response → Response
unfolding write write_header set_header
http_error m code w = write (message m) (
    write_header code
      (set_header (λ h. record h { content_type = some text_plain; nosniff = true }) w))
