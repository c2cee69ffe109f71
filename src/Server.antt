-- ===== src/Server.antt =====
-- internal/server/server.go: the relay between the public HTTP side and the tunnels.
pub mod Names
pub mod Host
pub mod Registry
pub mod System
pub mod Handshake
pub mod Dispatch
pub mod Header
pub mod Stats
pub mod Control
pub mod Admin
mod Tests
mod ConnTests
mod AdminTests
mod PageTests
