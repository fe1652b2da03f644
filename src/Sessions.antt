-- ===== src/Sessions.antt =====
-- internal/lobby/sessions: a session, the repository of a lobby's sessions, and the hub.
pub mod Session
pub mod Repository
pub mod Hub
pub mod Examples
mod HubExamples
mod EchoExamples
