-- ===== src/Channel.antt =====
-- The messages of the data channel: internal/lobby/clients/messenger.go is the lobby's end, and
-- pkg/media/messenger.go the client's.
pub mod Message
pub mod Messenger
pub mod Client
pub mod Negotiation
mod Examples
