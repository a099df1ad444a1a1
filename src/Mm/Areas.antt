-- ===== src/Mm/Areas.antt =====
-- kern/mm/vmm.c: the areas of an address space.
pub mod Defs
pub mod Sorted
pub mod Find
pub mod Cut
pub mod Insert
pub mod Destroy
pub mod Check
pub mod Map
pub mod Copy
mod Tests
