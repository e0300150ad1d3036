-- ===== src/Lib.antt =====
-- http-serve: HTTP GET and HEAD serving of an entity, with conditional requests, byte ranges,
-- multipart responses and streamed bodies.
--
-- The parts, and how they fit together:
--   - src/range.rs resolves a Range header against an entity's length: Range.antt.
--   - src/serving.rs answers a request: Conditions.antt reads the preconditions and If-Range,
--     Prepare.antt makes the part headers and the length of a multipart body, and Serving.antt is
--     `serve_inner` and `serve`, which choose the status, the headers and the body. Serving/Rfc.antt has
--     what RFC 7232 says of preconditions.
--   - src/body.rs has the body of a response, one of four streams: Stream.antt.
--   - src/lib.rs reads Accept-Encoding (`should_gzip`) and sets up a streaming response:
--     Negotiation.antt.
--   - src/dir.rs opens a path below a base directory, or its compressed form beside it: Dir.antt.
--   - src/file.rs makes an entity of a file, with an entity tag of its facts, and reads a range of it
--     in chunks; File.antt has it, and the Unix part of src/platform.rs (`read_at`, `file_info`), which
--     it calls. Windows.antt is the Windows part.
--   - src/gzip.rs wraps the writer of a streamed body, with or without compression: Gzip.antt, which
--     also has `StreamingBodyBuilder::build`. The encoder of flate2 is the record `Encoder`.
--   - src/etag.rs compares entity tags and answers If-Match and If-None-Match: Etag.antt.
--   - src/body.rs holds an entity's stream to its announced length (`ExactLenStream`): Body.antt.
--   - src/serving.rs sends a multipart/byteranges body part by part (`MultipartStream`), each part
--     through an exact-length stream: Multipart.antt.
--   - src/chunker.rs is the writer and the reader of a streamed body, which share a queue of chunks
--     under a lock: Chunker.antt has the operations, and Chunker/System.antt runs them in any order.
--   - examples/serve_dir.rs and examples/serve_file.rs serve a directory and a file: Examples.antt.
--   - fuzz/fuzz_targets call the library on a fuzzer's input: Fuzz.antt.
--
-- Base has the shared helpers, Std what the code uses of Rust's standard library on strings and
-- numbers, Http the names of the `http` crate that the code mentions, Io those of `std::io` and
-- `std::fs`.
--
-- How the parts are put together. Body/Faithful.antt is the interface between an entity and the code
-- that serves it: `Faithful` says that the streams of an entity with given contents give just the
-- bytes of their ranges, `Prompt` in Body/Prompt.antt that they get ahead at
-- every poll but for a bounded number. Multipart/Delivers.antt and Stream/Collect.antt take it as a parameter,
-- Stream/Completes.antt both; Serving/Contents.antt joins them to `serve`. File/Faithful.antt
-- fills them for a file, Fuzz/Ends.antt for the entity of a fuzz target. Gzip/Sink.antt is the interface between the writer of
-- a body and what writes to it: `raw_sink` fills it for a writer without compression, and `gzip_sink` for
-- one with an encoder that is a `Compresses`; Gzip/Streamed.antt and the page of a directory use it.
--
-- How the code is read. Strings and byte vectors are lists of byte values. A u64 is a native number
-- and its arithmetic wraps at 2^64, as in a release build, which has no debug assertions either. A
-- poll is a value `ready` or `pending` together with the state that it leaves. A stream of an entity, the data type with its length, and
-- the error conversions are the interface `StreamApi`, whose functions are arguments of the model.
-- An entity's length, tag, modification time and `add_headers` are the record `Entity`; the functions
-- of the `http` and `httpdate` crates are the record `HttpCrates`, and the time of day is an argument.
-- A file's modification time may lie before the Unix epoch, a `Timestamp`: then the file's `etag`
-- panics, and so does `serve_file`, which is `serve` of a file, for GET and HEAD. A response's header
-- map is the list of its headers in the order of iteration.
-- A waker is the number of the task that it wakes. Each operation on the chunk queue holds its lock
-- from its first to its last access to it, so it is one step.
--
-- The calls of the operating system are the record `Files` and, for reading, the function `pread`; for
-- `FsDir::open` a function on the buffer that holds the path, and on Windows the record `WinApi`. The
-- conversions of a file's bytes and errors to an entity's are the record `Conversions`.
--
-- Bounds. The loop over a path's segments has fuel for one round more than the path has bytes. The
-- loop over entity tags has fuel for one round more than the header has bytes; a round takes a byte at
-- least. The loop of a multipart poll has fuel for two rounds. Each is shown to be enough. The printers
-- of numbers have room for 20 decimal and 16 hexadecimal digits, which a u64 fits in. `write_all` of the
-- examples has fuel for one write for each byte, and the same result with more. The loop of the fuzz
-- target has fuel for its polls, and a number of them is shown to be enough.
--
-- Not modelled: debug printing, the texts of input and output errors, the closing of
-- descriptors, and the loops of the examples that accept connections. Tests and benchmarks are clients
-- of the library. Where the stream that `get_range` of a file unfolds is polled after its end and
-- panics, the model has any result, `polled_after_end` of the conversions. The panics of overflow checks and debug assertions, which the
-- build of a fuzz target may have, are left out.
pub mod Base
pub mod Std
pub mod Http
pub mod Io
pub mod Range
pub mod Etag
pub mod Body
pub mod Multipart
pub mod Chunker
pub mod Conditions
pub mod Prepare
pub mod Stream
pub mod Serving
pub mod Negotiation
pub mod Dir
pub mod File
pub mod Windows
pub mod Gzip
pub mod Examples
pub mod Fuzz
pub mod Tests
