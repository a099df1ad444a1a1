-- ===== src/Libs/Strings.antt =====
-- libs/string.c: strings and blocks of memory.
pub mod Defs
pub mod Move
pub mod Text
mod Tests
