-- ===== src/Protocol.antt =====
-- internal/protocol/protocol.go: names, the hello, challenges and lines of the control connection.
pub mod Name
pub mod Line
pub mod Challenge
pub mod Hello
mod Tests
