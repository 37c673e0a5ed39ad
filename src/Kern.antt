-- ===== src/Kern.antt =====
-- The kernel, kern/.
pub mod Asid
pub mod Sched
pub mod Pages
pub mod Env
pub mod Syscalls
