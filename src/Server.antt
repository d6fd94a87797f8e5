-- ===== src/Server.antt =====
-- The server process (winSockServer/).
pub mod State
pub mod Tcp
pub mod ClientView
pub mod Threads
pub mod Buttons
pub mod Input
pub mod Window
pub mod Resource
pub mod Setup
pub mod Commands
pub mod System
pub mod Calls
pub mod Process
pub mod Startup
mod Tests
