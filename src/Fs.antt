-- ===== src/Fs.antt =====
-- The NSFS file system (source/fs.h, source/fs.c).
pub mod Types
pub mod Monad
pub mod Disk
pub mod Table
pub mod Path
pub mod Time
pub mod Chain
pub mod Refs
pub mod File
pub mod Dir
pub mod Copy
pub mod Format
pub mod Frame
pub mod Sample
mod Tests
