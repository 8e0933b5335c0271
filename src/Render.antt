-- ===== src/Render.antt =====
-- packages/fragview/render.go: what the map makes of a block, and the window onto it.
pub mod Summary
pub mod Window
pub mod Cells
pub mod Slabs
pub mod Bar
