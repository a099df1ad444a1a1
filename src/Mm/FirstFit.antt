-- ===== src/Mm/FirstFit.antt =====
-- kern/mm/default_pmm.c: first-fit allocation of physical pages.
pub mod Defs
pub mod Blocks
pub mod Middle
pub mod Take
pub mod Init
pub mod Alloc
pub mod Merge
pub mod Free
pub mod Release
pub mod Last
pub mod Twice
