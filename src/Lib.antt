-- ===== src/Lib.antt =====
-- The media core of a Shig instance, an SFU in which the participants of a live stream meet in a
-- lobby.
--
-- A client logs in with a JWT and sends its requests to the HTTP handlers, which find the stream
-- that a request names and ask the manager of lobbies. The manager finds or creates the stream's
-- lobby and gives it a command. A lobby has one goroutine, the sequencer, which creates
-- sessions, removes them and runs commands on them, one at a time. A session is one participant:
-- it opens an ingress endpoint, on which it sends its tracks, and an egress endpoint, on which
-- it receives those of others. The hub of a lobby holds the tracks that are live and gives each
-- to the other sessions. What a track is for (guest or main stream), whether it is muted, and
-- its name travel in the title line of the SDP.
--
-- Instances follow one another over Activity Pub. A request to an inbox is queued, and a worker
-- verifies its signature and dispatches the activity. An Accept marks a follow; an Announce,
-- Update or Delete of a video sets up, changes or removes the stream, the space and the accounts
-- with which the owner and the guests of the video come into the lobby.
--
-- The files, with the code that they are about:
--   Common            tests, maps with a key, lists and integers
--   Rtp/Track, Rtp/InfoRepository   internal/rtp/track_sdp_info.go, track_info.go,
--                     track_sdp_info_repository.go
--   Rtp/Sdp           internal/rtp/sdp.go: Split has strings.SplitAfter and strings.TrimSpace,
--                     Label the title line, Sdp itself the loops over the media descriptions
--   Rtp/Endpoint      internal/rtp/endpoint.go: AddTrack, RemoveTrack, the mute flags, the first
--                     exchange; Race the goroutine of setupOnNegotiationNeeded in
--                     establish_endpoint.go beside the hub
--   Rtp/Stats         internal/rtp/stats/registry.go
--   Storage           internal/storage/memory.go
--   Rtp/MediaWriter, Rtp/MediaStream, Rtp/Receiver   internal/rtp/media_writer.go,
--                     media_stream.go, receiver.go: from a remote track to the track that is dispatched
--   Rtp/LiveStreamSender   internal/rtp/live_stream_sender.go, live_stream_writer.go
--   Auth/RequestToken internal/auth/request_token.go, request_token_manager.go, session.go: the
--                     token that each request of a logged-in user brings and replaces
--   Auth/Jwt, Auth/Account, Auth/Middleware   internal/auth/jwt.go, account_service.go,
--                     account_repository.go, middleware.go
--   Metric            internal/metric/node_graph.go
--   Sessions/Session  internal/lobby/sessions/session.go, signal.go, signal_builder.go
--   Sessions/Repository   internal/lobby/sessions/session_repository.go
--   Sessions/Hub      internal/lobby/sessions/hub.go, hub_request.go
--   Lobby/Commands    internal/lobby/commands
--   Lobby/Sequencer   internal/lobby/lobby.go, lobby_entity.go
--   Lobby/Repository, Lobby/Manager   internal/lobby/lobby_repository.go, lobby_manager.go
--   Channel/Message   pkg/message: what goes over the data channel
--   Channel/Messenger, Channel/Client   internal/lobby/clients/messenger.go and
--                     pkg/media/messenger.go, its two ends; Negotiation is about both
--                     and the session
--   Streams, Streams/Service   internal/stream/live_stream_service.go, live_stream_repository.go,
--                     space_repository.go
--   Media/Response, Media/Request   what the handlers of internal/media write and read:
--                     media_queries.go, payload.go, auth_session.go, internal/auth/session.go
--   Media/Whip        internal/media/whip_handler.go, whep_handler.go, with
--                     internal/stream/live_lobby_service.go; Manager puts the lobby manager below
--   Media/Live, Media/StreamResource   internal/media/live_handler.go, stream_handler.go
--   Federation        internal/activitypub: the types, and runs that read and write the database.
--                     The files below it that are named next are under internal/activitypub:
--   Federation/Follow, Federation/Accept, Federation/Register, Federation/ActorService
--                     models/follow.go, follow_repository.go, inbox/accept.go,
--                     handler/register.go, services/actor.go, outbox/sender.go
--   Federation/Inbox, Federation/Signature   handler/inbox.go, sharedInbox.go, object.go,
--                     actors.go, inbox/worker.go
--   Federation/Properties, Federation/Videos, Federation/VideoService   parser/unknown.go,
--                     services/video.go, inbox/announce.go, update.go, delete.go
--   Federation/Account, Federation/Resolver   remote/account.go, resolver.go, inbox/handler.go
--   Federation/Connector   internal/lobby/federation/connector.go, host.go,
--                     internal/lobby/clients/api_client.go
--   Federation/StreamAccess   internal/stream/live_stream_service.go and
--                     live_stream_repository.go, as far as the videos of other instances call them
-- A definition has the name of the Go function in snake case. The files below a component hold
-- its theorems, and those whose names end in Examples apply them at concrete inputs.
--
-- State is a record, and an operation returns the new one. Code that holds a lock throughout is
-- one step. An endpoint's AddTrack and RemoveTrack hold none: they are taken as calls that do
-- not overlap, except in Rtp/Endpoint/Race, which has their steps in any order. A call that
-- never returns, or a panic, is `none`; a handler's panic is a field of its result, since what
-- it has written before stays written; in the federation it is the fault `panicked`, beside the
-- state that the run has reached. Ids are natural numbers, drawn by the caller; a text is the
-- list of its bytes; a Go map is an association list, whose order stands for the order of an
-- iteration. Offer numbers and expiry times wrap at 2^32, as their Go types do. No definition
-- has fuel: the loops recurse on their list.
--
-- Parameters: pion's connection is the record Peer of Rtp/Endpoint, with three laws of AddTrack
-- and RemoveTrack, which a connection that keeps a list of senders satisfies. What the engine,
-- the clock, the database and a remote host answer is an argument of the call that waits for it.
-- The database of the streams is the record Database, with the law that gorm's First on a space
-- loads no association that is not preloaded; JSON is the record Json, with the law that what is
-- marshalled is read back; golang-jwt is the record Jwt, with the law that a signed token is
-- read back under its key while `exp` and `nbf` allow. uuid.Parse, MD5 and the JSON of the
-- handlers are functions without a law. The handlers take the lobbies through the records
-- LobbyManager and LiveManager, after the source's interface. The federation's tables are the
-- records Store and StreamStore; Store has the law that First reads only the primary key of the
-- record that it fills. net/url, requests to other instances and what they answer, uuid, the
-- verifier of httpsig and the decoding of keys are functions without a law.
--
-- Not modelled: the establishing of endpoints and their SDP in pion, the building and signing of
-- messages with vocab and httpsig, web finger and the outbox, and tools and configuration, which
-- are input and output or calls of libraries; the deprecated operations of the lobby manager and
-- the handlers that call them.
pub mod Common
pub mod Rtp
pub mod Storage
pub mod Metric
pub mod Sessions
pub mod Lobby
pub mod Auth
pub mod Channel
pub mod Streams
pub mod Media
pub mod Federation
