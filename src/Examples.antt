-- ===== src/Examples.antt =====
-- examples: the two servers that come with the library.
pub mod Listing
pub mod ServeDir
pub mod ServeFile
pub mod Writes
pub mod Written
pub mod Page
pub mod Listed
pub mod Delivers
