-- ===== src/Args.antt =====
-- The argument pipeline (src/args): raw arguments to the parameters of the spawned process.
mod Tests
pub mod Registry
pub mod Settings
pub mod Classifier
pub mod Session
pub mod Env
pub mod Assembler
pub mod Pipeline
