-- ===== src/Term.antt =====
-- The crate `term_input` (crates/term_input/src): terminal input bytes to input events.
pub mod Event
pub mod Params
pub mod Mouse
pub mod Parser
