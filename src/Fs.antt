-- ===== src/Fs.antt =====
-- fs/fs.c: the native file system of the file server.
pub mod Cache
pub mod Bitmap
pub mod File
pub mod Opens
pub mod Path
