-- ===== src/Cast.antt =====
-- src/cast.rs: Google Cast receivers.
pub mod Plan
pub mod Frame
pub mod Load
pub mod Thread
mod Tests
