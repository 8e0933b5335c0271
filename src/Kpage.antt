-- ===== src/Kpage.antt =====
-- packages/fragview/kpage.go: the kernel's per-page view of physical memory.
pub mod Classes
pub mod Kpf
pub mod Flags
pub mod Unseen
pub mod Blocks
pub mod Coverage
pub mod Reads
pub mod Scan
pub mod Totals
pub mod Iomem
pub mod Classify
