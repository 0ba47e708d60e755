-- ===== src/Backend.antt =====
-- src/backend/state.rs
mod Tests
pub mod State
pub mod Agents
