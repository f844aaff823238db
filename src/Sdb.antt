-- ===== src/Sdb.antt =====
-- hw4, the debugger: one module for each part of sdb.cpp and ptools.cpp.
pub mod Word
pub mod Split
pub mod Kernel
pub mod State
pub mod Breaks
pub mod Status
pub mod Cont
pub mod Elf
pub mod Loader
pub mod Regs
pub mod Show
pub mod Maps
pub mod Command
