-- ===== src/Examples/Delivers.antt =====
-- A file below the base directory is served byte by byte.
use http_serve.Base.{ℕ, ◌≤◌, if◌then◌else◌, Bytes, codes, bytes_eq, length, u64_max, drop}
use http_serve.Http.{SystemTime, HttpCrates, HeaderMap}
use http_serve.Io.{IoError, Files, Attempt, since_epoch}
use http_serve.Dir.{Node}
use http_serve.File.{Conversions, ChunkedReadFile, serve_file, FileStream}
use http_serve.File.Faithful.{KeepsBytes, ExtendKeeps}
use http_serve.Gzip.{Encoder}
use http_serve.Serving.{Response}
use http_serve.Examples.Listing.{DirCrates}
use http_serve.Examples.ServeDir.{headers_of, Request}

-- The path below the base directory that a request names.
abbrev pub path_of : Request → Bytes
path_of req = if bytes_eq req.path (codes "/") then codes "." else drop 1 req.path

module _ {D E G F M Ent : Type 0} (files : Files F M) (conversions : Conversions D E)
    (encoder : Encoder E G) (reserve : ℕ → ℕ) (dir_crates : DirCrates F Ent) (crates : HttpCrates)
    (display : IoError → Bytes) (keeps : KeepsBytes conversions) (extends : ExtendKeeps crates)
    (contents : Bytes) (fits : length contents ≤ u64_max) where
  abbrev entity_file : Node F M → SystemTime → HeaderMap → ChunkedReadFile F
  entity_file node mtime headers = record {
    len = files.len node.meta;
    inode = files.ino node.meta;
    mtime = since_epoch mtime;
    f = node.file;
    headers = headers;
  }

  abbrev served : SystemTime → Request → Node F M → SystemTime → Attempt (Response D E FileStream)
  served now req node mtime =
      serve_file conversions crates (files.pread node.file)
        (entity_file node mtime
          (headers_of files conversions encoder reserve dir_crates crates display req node))
        now req.method req.headers
