-- ===== src/Hwio.antt =====
-- The hardware layer of source/hwio.c but for the disks: screen, keyboard and clock.
pub mod Screen
pub mod Clock
pub mod Chs
pub mod Keyboard
mod Tests
