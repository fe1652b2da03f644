-- ===== src/Media/Examples.antt =====
-- A database with one stream, and one input for each theorem on the handlers.
use shig.Common.{
  ◌≢◌, ◌⊎◌, ◌↔◌, lookup, ℕ_discrete, ◌+◌, ◌-◌, Uuid, Text, Text-discrete, true, false, Bool, Option,
  none, some, [], ◌∷◌, ◌≡◌, refl, ℕ, if◌then◌else◌, arith,
}
use shig.Streams.{Account, Space, LiveStream, Query, found, not_found, Database}
use shig.Media.Response.{application_sdp, application_json}
use shig.Media.Request.{
  get_sdp_payload, payload, Request, content, start_session, get_live_stream, got,
}
use shig.Auth.RequestToken.{Values}
use shig.Media.Whip.{whip, World, LobbyManager, joined, left}
use shig.Rtp.Examples.{Slots, idle_endpoint}
use shig.Sessions.Session.{timeout, described}
use shig.Lobby.Commands.{Answers}
use shig.Lobby.Sequencer.{Lobby, Entity, new_lobby}
use shig.Lobby.Repository.{Lobbies, get_lobby}
use shig.Media.Whip.Created
use shig.Media.Whip.Created.{IsCreated, Accepted, answer, whip-IsCreated, whip-joins}
use shig.Media.Whip.Manager.{manager, whip-closed}
use shig.Media.Live.{LiveManager, publish_live_stream, stop_live_stream}
use shig.Media.Live.Owner
use shig.Media.Live.Owner.{live-not_owner, live-owner}
use shig.Media.StreamResource.{delete_stream}
use shig.Media.StreamResource.Writing.{delete_stream-own}
use shig.Streams.Service.Ownership.{OwnStream}
use shig.Streams.Service.{find_by_uuid_and_space_identifier}

abbrev ann : Text
ann = b'a' ∷ []

abbrev space_name : Text
space_name = b's' ∷ []

abbrev stream_name : Text
stream_name = b'7' ∷ []

abbrev owner : Account
owner = record { user = ann; uuid = b'9' ∷ [] }

abbrev bare_space : Space
bare_space = record { identifier = space_name; account = none }

abbrev stream : LiveStream
stream = record {
  uuid = 7;
  title = [];
  video = none;
  lobby = some 5;
  space = some bare_space;
  account = some owner;
}

-- A text of one digit is a UUID.
abbrev parse : Text → Option Uuid
parse (c ∷ []) = some (c - b'0')
parse _ = none

-- The state tells whether the stream is there.
first_stream : Uuid → Bool → Query LiveStream
first_stream u there = if there then found stream else not_found

first_space : Text → Bool → Query Space
first_space i there = found bare_space

first_space-bare : (i : Text) (d : Bool) (s : Space) → first_space i d ≡ found s → s.account ≡ none
unfolding first_space
first_space-bare i d s e = ground arith

abbrev db : Database Bool
db = record {
  first_stream = first_stream;
  first_space = first_space;
  create_stream = λ s d. (true, true);
  save_stream = λ s d. (true, true);
  delete_stream = λ u d. (false, true);
  space_bare = first_space-bare;
}

abbrev cookie : Option Values
cookie = some (record { authenticated = some true; user_uuid = some (b'8' ∷ []) })

abbrev request : Request
request = record {
  space = some space_name;
  id = some stream_name;
  content_type = some application_sdp;
  body = content (b'v' ∷ []);
  principal = some (b'8' ∷ []);
  cookie = cookie;
  saves = true;
  writes = true;
}

-- A lobby that always answers; the state counts the offers.
abbrev counting : LobbyManager ℕ
counting = record {
  create_ingress = λ id u offer n. (n + 1, joined offer (b'r' ∷ []));
  create_egress = λ id u offer n. (n + 1, joined offer (b'r' ∷ []));
  leave_lobby = λ id u n. (n, left true);
}

abbrev same : Text → Text
same t = t

abbrev world : World ℕ Bool
world = record { lobbies = 0; database = true; tokens = [] }

request-stream : get_live_stream db parse request true ≡ got stream
unfolding get_live_stream first_stream Text-discrete find_by_uuid_and_space_identifier
request-stream = refl

request-offer : get_sdp_payload request ≡ payload (b'v' ∷ [])
unfolding get_sdp_payload
request-offer = refl

abbrev fresh : Text
fresh = b'n' ∷ []

whip-IsCreated_example : IsCreated (whip db counting parse same fresh 4000 request world) ↔ (
    (start_session parse request ≡ true)
    × Accepted db counting parse same counting.create_ingress request world request.principal)
whip-IsCreated_example = whip-IsCreated db counting parse same fresh 4000 request world

abbrev entity : Entity
entity = record {
  uuid = 5;
  live_stream_id = 6;
  space = [];
  is_running = true;
  is_live = false;
  host = [];
}

abbrev closed_lobby : Lobby Slots
closed_lobby = record (new_lobby entity) { done = true }

abbrev closed_world : World (Lobbies Slots) Bool
closed_world = record { lobbies = (5, closed_lobby) ∷ []; database = true; tokens = [] }

abbrev answers : Answers Slots
answers = record { engine = some idle_endpoint; wait = timeout; description = described (1 ∷ []) }

abbrev print : Uuid → Text
print u = u ∷ []

abbrev lobbies : LobbyManager (Lobbies Slots)
lobbies = manager print none true true answers 9

abbrev closed_names : Created.Names db lobbies parse same request closed_world request.principal
closed_names = record {
  stream = stream;
  lobby_id = 5;
  offer = b'v' ∷ [];
  user = b'8' ∷ [];
  user_id = 8;
  is_stream = request-stream;
  has_lobby = refl;
  has_offer = request-offer;
  has_user = refl;
  is_uuid = refl;
}

whip-closed_example :
    ((whip db lobbies parse same fresh 4000 request closed_world).response.status ≡ some 500)
    × (get_lobby 5 (whip db lobbies parse same fresh 4000 request closed_world).state.lobbies
        ≡ some closed_lobby)
unfolding lookup ℕ_discrete
whip-closed_example =
    whip-closed print none true true answers 9 db parse same fresh 4000 request closed_world
      closed_names closed_lobby refl refl

-- The user 8 asks for the stream of the account 9.
abbrev live_request : Request
live_request = record request { content_type = some application_json }

abbrev live : LiveManager ℕ
live = record {
  start_live_stream = λ id key url u n. (n + 1, true);
  stop_live_stream = λ id u n. (n + 1, true);
}

abbrev decode_info : Text → Option (Text × Text)
decode_info t = some (t, t)

live-owner_example :
    ((n : Owner.Names db parse live decode_info live_request world) × (n.account.uuid ≡ n.user))
    ⊎ (((publish_live_stream db parse live decode_info live_request world).response.status
          ≢ some 201)
        × ((publish_live_stream db parse live decode_info live_request world).state ≡ world)
        × ((stop_live_stream db parse live live_request world).response.status ≢ some 201)
        × ((stop_live_stream db parse live live_request world).state ≡ world))
live-owner_example = live-owner db parse live decode_info live_request world

delete_stream-own_example :
    ((name : Text) × (id : Text) × (live_request.principal ≡ some name)
      × (live_request.id ≡ some id)
      × OwnStream db parse id name true)
    ⊎ (((delete_stream db parse live_request true).response.status ≢ some 200)
        × ((delete_stream db parse live_request true).state ≡ true))
delete_stream-own_example = delete_stream-own db parse live_request true
