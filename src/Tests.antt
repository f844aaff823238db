-- ===== src/Tests.antt =====
-- A small machine, tests of the models on it, and examples of the theorems.
pub mod Machine
pub mod Session
pub mod Words
pub mod Tools
pub mod Mini
pub mod Library
pub mod Logs
pub mod Maps
pub mod Jumps
pub mod Start
