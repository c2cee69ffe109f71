-- ===== src/Command.antt =====
-- cmd: what the two programs read from their flags.
pub mod Specs
pub mod Flags
pub mod ClientConfig
pub mod DaemonConfig
pub mod Program
pub mod Daemon
mod Tests
mod ConfigTests
mod DaemonTests
mod ProgramTests
