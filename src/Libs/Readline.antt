-- ===== src/Libs/Readline.antt =====
-- `readline` of kern/libs/readline.c.
pub mod Defs
pub mod Line
