-- ===== src/Ulib.antt =====
-- The user library, which the kernel uses too (source/ulib/ulib.c, source/ulib/ulib.h).
pub mod Text
pub mod Memory
pub mod Format
pub mod Getstr
mod Tests
