-- ===== src/Clib.antt =====
-- lib/: the C library that the kernel and the user programs share.
pub mod Print
pub mod Format
pub mod Memory
pub mod Strings
pub mod Elf
