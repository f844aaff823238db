-- ===== src/Lsof.antt =====
-- hw1, a listing of open files: hw1/hw1.cpp.
pub mod Text
pub mod Proc
pub mod Entries
pub mod Filters
