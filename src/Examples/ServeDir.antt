-- ===== src/Examples/ServeDir.antt =====
-- examples/serve_dir.rs: a server for a directory and what lies below it.
use http_serve.Base.{
  ℕ, ◌+◌, Bool, not, Option, none, some, [], ◌++◌, if◌then◌else◌, Bytes, codes, bytes_eq, Result,
  ok, err, drop,
}
use http_serve.Std.Str.{ends_with, rposition, bytes_le}
use http_serve.Http.{
  Method, RequestHeaders, SystemTime, HttpCrates, HeaderMap, Builder, location, content_type,
  status_ok, moved_permanently, status_not_found, internal_server_error, with_header, with_status,
}
use http_serve.Io.{IoError, not_found, Files, Attempt, finished, panics}
use http_serve.Stream.{empty, from_text}
use http_serve.Chunker.{Shared}
use http_serve.Negotiation.{streaming_body}
use http_serve.Gzip.{Encoder, Inner, drop_inner, build}
use http_serve.File.{Conversions, serve_file, stream_api, FileStream}
use http_serve.Dir.{Node, get, add_encoding_headers, into_file_entity}
use http_serve.Serving.{Response}
use http_serve.Examples.Listing.{DirCrates, ◌>>>=◌, answer, list_entries, listed, on_listed}

pub record Request : Type 0 where
  pub method : Method
  pub path : Bytes
  pub headers : RequestHeaders

module _ {D E G F M Ent : Type 0} (files : Files F M) (conversions : Conversions D E)
    (encoder : Encoder E G) (reserve : ℕ → ℕ) (dir_crates : DirCrates F Ent) (crates : HttpCrates)
    (display : IoError → Bytes) where
  open dir_crates use {entries, first_raw}

  -- `if let Some(mut w) = stream { … }`
  abbrev pub list_dir :
      Request
      → F
      → HeaderMap × (Shared E × Option (Inner G))
      → Attempt (Result (Response D E FileStream) IoError)
  list_dir req dir (headers, (shared, none)) =
      finished (ok (listed encoder reserve crates headers shared))
  list_dir req dir (headers, (shared, some w)) =
      on_listed encoder reserve crates headers
        (list_entries encoder reserve dir_crates req.path dir (entries dir) (w, shared))

  abbrev pub redirect : Bytes → Response D E FileStream
  redirect path = record {
    parts =
        with_header (with_status (record { status = status_ok; headers = [] }) moved_permanently)
          location (path ++ codes "/");
    body = empty;
  }

  abbrev pub insert_type : Option Bytes → HeaderMap → HeaderMap
  insert_type none h = h
  insert_type (some mime_type) h = crates.insert content_type mime_type h

  abbrev pub type_of : Option ℕ → Bytes → Option Bytes
  type_of none path = none
  type_of (some dot) path = first_raw (drop (dot + 1) path)

  -- the headers that the program makes for a file
  abbrev pub headers_of : Request → Node F M → HeaderMap
  headers_of req node =
      insert_type (type_of (rposition b'.' req.path) req.path) (add_encoding_headers crates node [])

  -- The answer to a path that is no directory.
  unfoldable pub reply_file :
      SystemTime → Request → Node F M → Attempt (Result (Response D E FileStream) IoError)
  unfolding rposition into_file_entity serve_file
  reply_file now req node = finished (into_file_entity files node (headers_of req node)) >>>= λ f.
      answer (serve_file conversions crates (files.pread node.file) f now req.method req.headers)

  unfoldable pub reply :
      SystemTime → Request → Node F M → Attempt (Result (Response D E FileStream) IoError)
  unfolding ends_with reply_file drop_inner streaming_body build bytes_le
  reply now req node =
      if files.is_dir node.meta
      then if not (ends_with b'/' req.path)
        then finished (ok (redirect req.path))
        else list_dir req node.file (build encoder (streaming_body crates req.method req.headers))
      else reply_file now req node

  abbrev pub status_of : IoError → http_serve.Http.StatusCode
  status_of not_found = status_not_found
  status_of _ = internal_server_error

  abbrev pub failure : IoError → Response D E FileStream
  failure e = record {
    parts = record { status = status_of e; headers = [] };
    body =
        from_text (stream_api conversions (λ n offset. err e)) (codes "I/O error: " ++ display e);
  }

  abbrev pub answered :
      Attempt (Result (Response D E FileStream) IoError) → Attempt (Response D E FileStream)
  answered panics = panics
  answered (finished (ok res)) = finished res
  answered (finished (err e)) = finished (failure e)

  abbrev pub on_node :
      SystemTime → Request → Result (Node F M) IoError → Attempt (Response D E FileStream)
  on_node now req (err e) = finished (failure e)
  on_node now req (ok node) = answered (reply now req node)

  -- `serve`, on the opened base directory, which is of the calls in `files`
  unfoldable pub serve : Bool → SystemTime → Request → Attempt (Response D E FileStream)
  unfolding get reply
  serve auto_gzip now req =
      let p = if bytes_eq req.path (codes "/") then codes "." else drop 1 req.path in
      on_node now req (get files auto_gzip crates p req.headers)
