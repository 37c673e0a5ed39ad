-- ===== src/Fat.antt =====
-- fs/fatfs.c: the FAT32 driver of the file server.
pub mod Defs
pub mod Layout
pub mod Names
pub mod LongName
pub mod Directory
pub mod Table
pub mod Chain
