-- ===== src/Client.antt =====
-- internal/client: the side that dials the relay and serves the local target.
pub mod Reconnect
pub mod Session
pub mod Run
pub mod Pause
pub mod Preview
pub mod Events
pub mod Log
pub mod Dial
pub mod Target
pub mod Stream
pub mod Replay
mod Tests
mod SessionTests
mod StreamTests
mod DialTests
mod ReplayTests
