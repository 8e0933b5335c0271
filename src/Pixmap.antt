-- ===== src/Pixmap.antt =====
-- packages/fragview/pixmap.go: the map drawn as pixels, and the pointer over it.
pub mod Layout
pub mod Bands
pub mod Palette
pub mod Paint
pub mod Columns
pub mod Picture
pub mod Encode
