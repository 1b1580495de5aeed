-- ===== src/Daemon.antt =====
-- src/daemon.rs: the daemon's state and its operations.
pub mod State
pub mod Serve
pub mod Env
pub mod Lifecycle
pub mod Target
pub mod Connect
pub mod Restream
pub mod Control
pub mod Poll
pub mod Request
pub mod Stored
pub mod Dispatch
pub mod Owner
pub mod Run
mod Sample
mod Tests
