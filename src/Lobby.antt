-- ===== src/Lobby.antt =====
-- internal/lobby: the commands, the sequencer of a lobby, the repository of lobbies, the manager.
pub mod Commands
pub mod Sequencer
pub mod Repository
pub mod Manager
mod Examples
