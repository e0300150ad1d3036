-- ===== src/Std.antt =====
-- The parts of Rust's standard library that the program computes with.
pub mod Str
pub mod Num
