-- ===== src/Ui.antt =====
-- The terminal user interface (src/ui): the actors that own the state of the pseudo-terminal and of
-- the three dialogs, and how the application passes input on to the tool.
pub mod Mvi
pub mod Pty
pub mod Input
pub mod Settings
pub mod BackendSwitch
pub mod History
pub mod Choose
pub mod Selection
mod Tests
