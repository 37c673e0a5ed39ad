-- ===== src/Tests.antt =====
-- The definitions on small inputs, and the theorems applied to concrete states.
pub mod Disk
pub mod Text
pub mod Kernel
pub mod Printing
pub mod Memory
pub mod Scheduler
pub mod Pages
pub mod Pipes
pub mod Opens
pub mod Descriptors
pub mod Paths
pub mod Environments
pub mod Elf
pub mod Shell
pub mod Chains
pub mod Transfer
pub mod Boot
