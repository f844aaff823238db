-- ===== src/Logger.antt =====
-- hw2, a logger of file operations: hw2/logger.cpp, which is loaded in front of the C library, and
-- hw2/hw2.cpp, which starts a program under it.
pub mod Checkbuf
pub mod Libc
pub mod Calls
pub mod Launch
pub mod Sample
