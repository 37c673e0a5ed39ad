-- ===== src/User.antt =====
-- user/lib/: the library of the user programs.
pub mod Pipe
pub mod Descriptors
pub mod Shell
pub mod Transfer
