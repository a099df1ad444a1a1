-- ===== src/Mm.antt =====
-- kern/mm: physical pages and address spaces.
pub mod FirstFit
pub mod Areas
pub mod Tables
mod Tests
