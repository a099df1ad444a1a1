-- ===== src/Libs.antt =====
-- The kernel's library of containers (libs/): circular lists and skew heaps.
pub mod Links
pub mod SkewHeap
pub mod Hash
pub mod Strings
pub mod Numerals
pub mod Format
pub mod Readline
mod Tests
