-- ===== src/Model.antt =====
-- packages/fragview/main.go: the program's state between messages.
pub mod Keys
pub mod Sweep
pub mod Update
