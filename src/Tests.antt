-- ===== src/Tests.antt =====
-- Runs of the definitions at concrete inputs, and each theorem at an input that meets its hypotheses.
mod Http
mod Range
mod Etag
mod Fuzz
mod Body
mod Multipart
mod Chunker
mod Serving
mod Dates
mod Decides
mod Negotiation
mod Dir
mod File
mod Examples
mod Windows
mod Gzip
mod Listing
