-- ===== src/Tui.antt =====
-- internal/tui: the terminal interface of the client, a state that messages change and that is drawn
-- after each of them.
pub mod Model
pub mod Format
pub mod Requests
pub mod Selection
pub mod Rows
pub mod Fit
pub mod Actions
pub mod Detail
pub mod Colours
pub mod Inspector
pub mod Probe
pub mod View
pub mod Screen
pub mod Handlers
pub mod Keys
pub mod Filter
pub mod Update
mod Tests
mod ScreenTests
