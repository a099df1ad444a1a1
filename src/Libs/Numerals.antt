-- ===== src/Libs/Numerals.antt =====
-- Numbers as text: printnum of libs/printfmt.c, strtol of libs/string.c, and libs/rand.c.
pub mod Defs
pub mod Print
pub mod Read
pub mod RoundTrip
mod Tests
