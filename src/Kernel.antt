-- ===== src/Kernel.antt =====
-- The kernel proper (source/kernel.c).
pub mod Heap
