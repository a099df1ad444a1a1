-- ===== src/Libs/Format.antt =====
-- Formatted output: vprintfmt of libs/printfmt.c.
pub mod Errors
pub mod Defs
pub mod Decimal
mod Tests
