-- ===== src/Process.antt =====
-- kern/process/proc.c: the table of processes.
pub mod Table
pub mod Family
pub mod Links
pub mod Alloc
pub mod Hash
pub mod Pid
pub mod Kill
mod Tests
