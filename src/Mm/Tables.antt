-- ===== src/Mm/Tables.antt =====
-- kern/mm/pmm.c: the page tables of an address space.
pub mod Defs
pub mod Tree
pub mod Grow
pub mod Manager
pub mod Enter
pub mod GetPte
pub mod Leaf
pub mod Read
pub mod Remove
pub mod LetGo
pub mod Insert
pub mod FirstFit
pub mod TakeBack
pub mod Ranges
pub mod Cover
pub mod Unmapped
pub mod Then
pub mod Unmap
pub mod PgdirAlloc
pub mod Cleared
pub mod Exit
pub mod GetPage
pub mod ExitMmap
pub mod Sample
mod Tests
