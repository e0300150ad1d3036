-- ===== src/Gzip.antt =====
-- src/gzip.rs, and `build` of src/lib.rs: the writer of a streamed body, which may compress.
pub mod Aborted
pub mod Raw
pub mod Progress
pub mod Collected
pub mod Sink
pub mod Streamed
use http_serve.Base.{
  ℕ, Bool, true, false, ◌&&◌, Option, none, some, List, [], ◌∷◌, ◌++◌, ltb, if◌then◌else◌, Bytes,
  codes,
}
use http_serve.Http.{HeaderMap, vary, content_encoding}
use http_serve.Chunker.{
  Shared, Writer, Done, done, broken_pipe, panicked, with_chunk_size, abort, flush, write,
  drop_writer,
}
use http_serve.Negotiation.{StreamingBodyBuilder}

-- What a call leaves of the queue, the tasks that it wakes, and its result.
pub record Effect (E A : Type 0) : Type 0 where
  pub shared : Shared E
  pub woken : List ℕ
  pub result : Done A

-- `flate2::write::GzEncoder` around a chunk writer: `GzBuilder::write`, `Write::write`,
-- `Write::flush`, its `Drop` and `get_mut`.
pub record Encoder (E G : Type 0) : Type 0 where
  pub encode : Writer → ℕ → G
  pub write_encoded : G → Shared E → Bytes → G × Effect E ℕ
  pub flush_encoded : G → Shared E → G × Effect E (Unit {0})
  pub drop_encoded : G → Shared E → Shared E × List ℕ
  pub get_mut : G → Writer

pub data Inner (G : Type 0) : Type 0 where
  raw : Writer → Inner G
  gzipped : G → Inner G
  dead : Inner G

abbrev pub to_list : Option ℕ → List ℕ
to_list none = []
to_list (some w) = w ∷ []

module _ {E G : Type 0} (encoder : Encoder E G) where
  open encoder use {encode, write_encoded, flush_encoded, drop_encoded, get_mut}

  unfoldable pub drop_inner : Inner G → Shared E → Shared E × List ℕ
  unfolding http_serve.Chunker.flush_helper
  drop_inner dead shared = (shared, [])
  drop_inner (raw w) shared = let c = drop_writer w shared in (c.shared, to_list c.woken)
  drop_inner (gzipped g) shared = drop_encoded g shared

  -- The writer is dropped as soon as a call fails.
  abbrev pub settle : {A : Type 0} → Done A → Inner G → Shared E → List ℕ → Inner G × Effect E A
  settle broken_pipe inner s woken =
      let (s', more) = drop_inner inner s in
      (dead, record { shared = s'; woken = woken ++ more; result = broken_pipe })
  settle panicked inner s woken = (inner, record { shared = s; woken = woken; result = panicked })
  settle (done a) inner s woken = (inner, record { shared = s; woken = woken; result = done a })

  -- `BodyWriter::write`, `flush` and `abort`
  unfoldable pub write_body : (ℕ → ℕ) → Inner G → Shared E → Bytes → Inner G × Effect E ℕ
  unfolding drop_inner write
  write_body reserve dead shared buf =
      (dead, record { shared = shared; woken = []; result = broken_pipe })
  write_body reserve (raw w) shared buf =
      let c = write reserve w shared buf in
      settle c.result (raw c.writer) c.shared (to_list c.woken)
  write_body reserve (gzipped g) shared buf =
      let (g', e) = write_encoded g shared buf in settle e.result (gzipped g') e.shared e.woken

  unfoldable pub flush_body : Inner G → Shared E → Inner G × Effect E (Unit {0})
  unfolding drop_inner
  flush_body dead shared = (dead, record { shared = shared; woken = []; result = broken_pipe })
  flush_body (raw w) shared =
      let c = flush w shared in settle c.result (raw c.writer) c.shared (to_list c.woken)
  flush_body (gzipped g) shared =
      let (g', e) = flush_encoded g shared in settle e.result (gzipped g') e.shared e.woken

  abbrev pub abort_with : Inner G → Writer → Shared E → E → Inner G × Effect E (Unit {0})
  abort_with inner w shared error =
      let c = abort w shared error in
      let (s, more) = drop_inner inner c.shared in
      (dead, record { shared = s; woken = to_list c.woken ++ more; result = done tt })

  -- The old writer is dropped at the end of the `match`.
  unfoldable pub abort_body : Inner G → Shared E → E → Inner G × Effect E (Unit {0})
  unfolding drop_inner abort
  abort_body dead shared error = (dead, record { shared = shared; woken = []; result = done tt })
  abort_body (raw w) shared error = abort_with (raw w) w shared error
  abort_body (gzipped g) shared error = abort_with (gzipped g) (get_mut g) shared error

  abbrev pub build_writer : Bool → Writer → ℕ → Inner G
  build_writer true w level = gzipped (encode w level)
  build_writer false w level = raw w

  -- `StreamingBodyBuilder::build`: the headers of the response, the queue of its body, and the
  -- writer of a request that needs a body. Without one the chunk writer is dropped.
  unfoldable pub build : StreamingBodyBuilder → HeaderMap × (Shared E × Option (Inner G))
  unfolding with_chunk_size http_serve.Chunker.flush_helper
  build b =
      let (w, shared) = with_chunk_size b.chunk_size in
      let gzip = b.gzips && ltb 0 b.gzip_level in
      (
        (vary, codes "accept-encoding")
            ∷ (if gzip then (content_encoding, codes "gzip") ∷ [] else []),
        (if b.body_needed
            then (shared, some (build_writer gzip w b.gzip_level))
            else ((drop_writer w shared).shared, none)),
      )
