-- ===== src/Process/Pid.antt =====
-- `get_pid` of kern/process/proc.c.
pub mod Defs
pub mod Scan
pub mod Unique
