-- ===== src/Media.antt =====
-- internal/media: the HTTP handlers of the streams and their lobbies.
pub mod Response
pub mod Request
pub mod Whip
pub mod Live
pub mod StreamResource
mod Examples
