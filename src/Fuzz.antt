-- ===== src/Fuzz.antt =====
-- fuzz/fuzz_targets: programs that call the library on inputs that a fuzzer makes.
pub mod ServeNonempty
pub mod Ends
pub mod ShouldGzip
