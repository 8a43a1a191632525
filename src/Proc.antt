-- ===== src/Proc.antt =====
-- OperatingSystem/HW5/proc.c: the process table, the life of a process, and the scheduler.
pub mod Alloc
pub mod Exit
pub mod Kernel
pub mod Machine
pub mod Sample
pub mod Sched
pub mod Table
