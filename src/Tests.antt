-- ===== src/Tests.antt =====
-- Concrete values on which the theorems are applied, and an instance of the interface of
-- `serde_json`.
pub mod Codec
pub mod Values
mod Wire
mod Logs
mod Jobs
mod Daemon
pub mod Sockets
pub mod Streams
pub mod Commands
pub mod Sessions
mod Histories
mod Restart
mod Draining
mod Watching
mod Crowd
mod Tasks
