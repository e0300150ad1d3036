-- ===== src/Examples/Listed.antt =====
-- examples/serve_dir.rs: the answer to a GET for a directory, whole.
use http_serve.Base.{
  ℕ, ◌<◌, ◌≡◌, ◌≤◌, refl, ap, ◌∙◌, Bool, true, false, Option, none, some, List, [], ◌∷◌, arith,
  Bytes, codes, Result, ok, All, length,
}
use http_serve.Http.{
  Method, get, head, other, HttpCrates, HeaderMap, SystemTime, vary, content_type, content_encoding,
  status_ok,
}
use http_serve.Io.{IoError, Files, Attempt, finished}
use http_serve.Std.Str.{ends_with}
use http_serve.Chunker.{Writer, Shared, with_chunk_size, drop_writer}
use http_serve.Chunker.Closed.{Closed, left}
use http_serve.Negotiation.{should_gzip, StreamingBodyBuilder, streaming_body}
use http_serve.Stream.Collect.{complete, collect}
use http_serve.Stream.Chunks.{collect-Closed}
use http_serve.Gzip.{Encoder, build, build_writer, drop_inner}
use http_serve.Gzip.Progress.{start-RawTaken}
use http_serve.Gzip.Collected.{drop_writer-Closed}
use http_serve.Gzip.Sink.{Sink, Compresses, Reads, sink_of, build_writer-Taken}
use http_serve.File.{Conversions, stream_api, FileStream}
use http_serve.File.Faithful.{KeepsBytes}
use http_serve.Dir.{Node}
use http_serve.Serving.{Response}
use http_serve.Examples.Listing.{DirCrates, OpenBody, on_listed, listed, sorted}
use http_serve.Examples.ServeDir.{answered, Request, list_dir, reply, on_node, serve}
use http_serve.Examples.Delivers.{path_of}
use http_serve.Examples.Written.{Written}
use http_serve.Examples.Page.{page, Known, list_entries-Writes}

module _ {D E G F M Ent : Type 0} (files : Files F M) (conversions : Conversions D E)
    (keeps : KeepsBytes conversions) (encoder : Encoder E G) (decode : Bytes → Option Bytes)
    (compresses : Compresses encoder decode) (reserve : ℕ → ℕ) (enough : (n : ℕ) → n ≤ reserve n)
    (dir_crates : DirCrates F Ent) (crates : HttpCrates) (display : IoError → Bytes) where
  abbrev pub sink : (gzip : Bool) → Sink encoder reserve (Reads decode gzip)
  sink = sink_of encoder decode compresses reserve enough

  -- HEAD gets no byte.
  abbrev pub Wanted : Method → Bool → Bytes → Bytes → Type 0
  Wanted head gzip text z = z ≡ []
  Wanted get gzip text z = Reads decode gzip z text
  Wanted other gzip text z = Reads decode gzip z text

  abbrev pub headers_for : Bool → HeaderMap
  headers_for false = (vary, codes "accept-encoding") ∷ []
  headers_for true = (vary, codes "accept-encoding") ∷ (content_encoding, codes "gzip") ∷ []

  -- The answer has these parts, and whoever polls its body more often than it has bytes gets all of
  -- the bytes and the end.
  pub record Answers (gzip : Bool) (Want : Bytes → Type 0) (node : Node F M)
      (res : Response D E FileStream) : Type 0 where
    pub parts_eq : res.parts ≡ record {
      status = status_ok;
      headers = crates.insert content_type (codes "text/html") (headers_for gzip);
    }
    pub bytes : Bytes
    pub wanted : Want bytes
    pub gets :
        (n cx : ℕ)
        → length bytes < n
        → collect (stream_api conversions (files.pread node.file)) keeps.bytes_of n res.body cx
          ≡ (bytes, complete)

  Closed-Answers :
      (gzip : Bool) (Want : Bytes → Type 0) (node : Node F M) (queue : Shared E)
      → Closed queue.state
      → Want (left queue.state)
      → Answers gzip Want node (listed encoder reserve crates (headers_for gzip) queue)
  Closed-Answers gzip Want node queue closed wanted = record {
    parts_eq = refl;
    bytes = left queue.state;
    wanted = wanted;
    gets = λ n cx lt.
        collect-Closed (stream_api conversions (files.pread node.file)) keeps.bytes_of
          keeps.bytes_of-from_vec n queue.state queue.waker cx closed lt;
  }

  -- The handler is done, with such an answer.
  abbrev Gives :
      Bool
      → (Bytes → Type 0)
      → Node F M
      → Attempt (Result (Response D E FileStream) IoError)
      → Type 0
  Gives gzip Want node o =
      (res : Response D E FileStream) × (o ≡ finished (ok res)) × Answers gzip Want node res

  on_listed-Gives :
      (gzip : Bool) (text : Bytes) (node : Node F M)
      (o : Attempt (Result (OpenBody encoder reserve) IoError))
      → Written encoder reserve (Reads decode gzip) (sink gzip) text o
      → Gives gzip
          (λ z. Reads decode gzip z text)
          node
          (on_listed encoder reserve crates (headers_for gzip) o)
  on_listed-Gives gzip text node o w =
      let (closed, reads) = (sink gzip).drop_inner-Closed w.inner w.shared text w.still in
      (
        listed encoder reserve crates (headers_for gzip) (drop_inner encoder w.inner w.shared).0,
        rw w.outcome refl,
        Closed-Answers gzip (λ z. Reads decode gzip z text) node
            (drop_inner encoder w.inner w.shared).0 closed reads,
      )

  -- the builder for the request, whose compression level is 6
  abbrev builder_for : Bool → Bool → StreamingBodyBuilder
  builder_for gzip needed = record {
    chunk_size = 4096;
    gzip_level = 6;
    gzips = gzip;
    body_needed = needed;
  }

  abbrev first_writer : Writer
  first_writer = (with_chunk_size {E = E} 4096).0

  abbrev first_shared : Shared E
  first_shared = (with_chunk_size 4096).1

  build-needed :
      (gzip : Bool)
      → build {E = E} encoder (builder_for gzip true)
        ≡ (headers_for gzip, (first_shared, some (build_writer encoder gzip first_writer 6)))
  unfolding build
  build-needed false = refl
  build-needed true = refl

  build-needless :
      (gzip : Bool)
      → build {E = E} encoder (builder_for gzip false)
        ≡ (headers_for gzip, ((drop_writer first_writer first_shared).shared, none))
  unfolding build
  build-needless false = refl
  build-needless true = refl

  module _ (req : Request) (node : Node F M) (es : List Ent) (kind : Ent → Bool)
      (listing : dir_crates.entries node.file ≡ some es) (gzip : Bool)
      (known : All
        (Known encoder reserve (Reads decode gzip) (sink gzip) dir_crates req.path node.file kind)
        (sorted dir_crates es))
      (negotiated : should_gzip crates req.headers ≡ gzip) where
    abbrev text : Bytes
    text = page dir_crates req.path kind es

    abbrev listed_by : StreamingBodyBuilder → Attempt (Result (Response D E FileStream) IoError)
    listed_by b =
        list_dir files conversions encoder reserve dir_crates crates display req node.file
          (build encoder b)

    list_dir-needed :
        Gives gzip (λ z. Reads decode gzip z text) node (listed_by (builder_for gzip true))
    list_dir-needed =
        rw (build-needed gzip, listing)
          (on_listed-Gives gzip text node _ (
            list_entries-Writes encoder reserve (Reads decode gzip) (sink gzip) dir_crates req.path
              node.file kind es known [] (build_writer encoder gzip first_writer 6) first_shared
              (build_writer-Taken encoder decode compresses reserve enough gzip 4096 6
                (omega arith))))

    list_dir-needless : Gives gzip (λ z. z ≡ []) node (listed_by (builder_for gzip false))
    list_dir-needless =
        let queue = (drop_writer first_writer first_shared).shared in
        let (closed, empty) =
          drop_writer-Closed reserve enough first_writer first_shared []
            (start-RawTaken 4096 (omega arith)) in
        rw (build-needless gzip) (
          listed encoder reserve crates (headers_for gzip) queue,
          refl,
          Closed-Answers gzip (λ z. z ≡ []) node queue closed empty,
        )

    list_dir-Gives :
        (m : Method)
        → Gives gzip (Wanted m gzip text) node (listed_by (streaming_body crates m req.headers))
    unfolding streaming_body
    list_dir-Gives get = rw negotiated list_dir-needed
    list_dir-Gives other = rw negotiated list_dir-needed
    list_dir-Gives head = rw negotiated list_dir-needless

    reply-Gives :
        (now : SystemTime)
        → files.is_dir node.meta ≡ true
        → ends_with b'/' req.path ≡ true
        → Gives gzip
            (Wanted req.method gzip text)
            node
            (reply files conversions encoder reserve dir_crates crates display now req node)
    unfolding reply
    reply-Gives now is_dir slash = rw (is_dir, slash) (list_dir-Gives req.method)

    -- For every request, whether it accepts gzip or not, on a path with a slash behind it on which
    -- `FsDir::get` finds a directory: if its entries can be read and each one's kind can be told, the
    -- allocator reserves what it is asked for, and what the encoder passes on decodes to what it was
    -- given, the example's `serve` does not panic; it answers 200 with a Content-Type of HTML, and with
    -- Content-Encoding just if it compresses. Whoever polls the body more often than it has bytes gets
    -- all of them and the end; they are, or with compression decode to, exactly the page: its head, a
    -- line for each entry but for `.`, `..` at the root and names that are no text, in the order in which
    -- `sort_unstable_by` puts the entries by their names, and its foot. HEAD gets the same head of the response and no byte.
    pub serve-directory :
        (auto_gzip : Bool) (now : SystemTime)
        → http_serve.Dir.get files auto_gzip crates (path_of req) req.headers ≡ ok node
        → files.is_dir node.meta ≡ true
        → ends_with b'/' req.path ≡ true
        → (res : Response D E FileStream) × (serve files conversions encoder reserve dir_crates
              crates display auto_gzip now req
            ≡ finished res)
          × Answers gzip (Wanted req.method gzip (page dir_crates req.path kind es)) node res
    unfolding serve
    serve-directory auto_gzip now found is_dir slash =
        let (res, done, answers) = reply-Gives now is_dir slash in
        (
          res,
          ap (on_node files conversions encoder reserve dir_crates crates display now req) found
              ∙ ap (answered files conversions encoder reserve dir_crates crates display) done,
          answers,
        )
