-- ===== src/Mini.antt =====
-- The small C library of hw3: libmini.c, libmini.h and libmini64.asm.
pub mod Sigset
pub mod Sys
pub mod Wrappers
pub mod Text
pub mod Signals
pub mod Jump
pub mod Terminal
pub mod Samples
