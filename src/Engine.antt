-- ===== src/Engine.antt =====
-- The engine of pugjs/engine.go.
pub mod State
pub mod Counts
pub mod Limit
pub mod Progress
pub mod Ends
pub mod Settles
pub mod Once
pub mod Load
pub mod Filtered
pub mod Startup
pub mod Ready
pub mod Partials
