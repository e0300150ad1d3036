-- ===== src/Examples/ServeFile.antt =====
-- examples/serve_file.rs: a server for one file.
use http_serve.Base.{[], codes, Result}
use http_serve.Http.{Method, RequestHeaders, SystemTime, HttpCrates, content_type}
use http_serve.Io.{IoError, Files, Attempt, finished}
use http_serve.File.{Conversions, serve_file, new_file, FileStream}
use http_serve.Serving.{Response}
use http_serve.Examples.Listing.{◌>>>=◌, answer}

module _ {D E F M : Type 0} (files : Files F M) (conversions : Conversions D E)
    (crates : HttpCrates) where
  -- `serve`; `opened` is what `File::open` gave for the program's argument.
  unfoldable pub serve_path :
      Result F IoError
      → SystemTime
      → Method
      → RequestHeaders
      → Attempt (Result (Response D E FileStream) IoError)
  unfolding new_file serve_file
  serve_path opened now m req_hdrs = finished opened >>>= λ f.
      finished (new_file files f (crates.insert content_type (codes "application/octet-stream") []))
      >>>= λ file. answer (serve_file conversions crates (files.pread f) file now m req_hdrs)
