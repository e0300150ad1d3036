-- ===== src/Gzip/Streamed.antt =====
-- A streamed body from `build` to the client, compressed or not.
use http_serve.Base.{
  ℕ, ◌<◌, ◌≤◌, ◌≡◌, refl, sym, ap, ◌∙◌, subst, Bool, ◌&&◌, Option, some, List, [], ◌∷◌, ◌++◌,
  append-nil, append_assoc, ltb, Bytes, All, take, true, false, none, if◌then◌else◌, length,
}
use http_serve.Http.{HeaderMap}
use http_serve.Body.{StreamApi}
use http_serve.Chunker.{drop_writer, Shared, with_chunk_size}
use http_serve.Chunker.System.{count}
use http_serve.Chunker.Closed.{left}
use http_serve.Stream.{chunker}
use http_serve.Stream.Collect.{complete, collect}
use http_serve.Stream.Chunks.{collect-Closed}
use http_serve.Negotiation.{StreamingBodyBuilder}
use http_serve.Gzip.{Encoder, Inner, write_body, flush_body, drop_inner, build, build_writer}
use http_serve.Gzip.Aborted.{Operation, writes, flushes, aborts, Body, operate, operate_all}
use http_serve.Gzip.Raw.{IsPlain}
use http_serve.Gzip.Sink.{Sink, Compresses, Reads, sink_of, build_writer-Taken}

module _ {E G : Type 0} (encoder : Encoder E G) (reserve : ℕ → ℕ) where
  -- The bytes that the writes reported as written.
  abbrev pub reported : List (Operation E) → Body encoder → Bytes
  reported [] b = []
  reported (writes buf ∷ os) (inner, shared) =
      let (next, e) = write_body encoder reserve inner shared buf in
      take (count e.result) buf ++ reported os (next, e.shared)
  reported (flushes ∷ os) b = reported os (operate encoder reserve flushes b)
  reported (aborts e ∷ os) b = reported os (operate encoder reserve (aborts e) b)

module _ {E G : Type 0} (encoder : Encoder E G) (decode : Bytes → Option Bytes)
    (compresses : Compresses encoder decode) (reserve : ℕ → ℕ)
    (enough : (n : ℕ) → n ≤ reserve n) where
  abbrev sink : (gzip : Bool) → Sink encoder reserve (Reads decode gzip)
  sink = sink_of encoder decode compresses reserve enough

  operate_all-Taken :
      (gzip : Bool) (os : List (Operation E)) (inner : Inner G) (shared : Shared E) (plain : Bytes)
      → All (IsPlain encoder reserve enough) os
      → (sink gzip).Taken inner shared plain
      → (sink gzip).Taken
          (operate_all encoder reserve os (inner, shared)).0
          (operate_all encoder reserve os (inner, shared)).1
          (plain ++ reported encoder reserve os (inner, shared))
  unfolding operate_all
  operate_all-Taken gzip [] inner shared plain calm t =
      subst ((sink gzip).Taken inner shared) (sym (append-nil plain)) t
  operate_all-Taken gzip (writes buf ∷ os) inner shared plain calm t =
      let (next, e) = write_body encoder reserve inner shared buf in
      let took = (sink gzip).write_body-Took inner shared plain buf t in
      let same : take took.count buf ≡ take (count e.result) buf = rw took.result_eq refl in
      let rest = reported encoder reserve os (next, e.shared) in
      subst
        ((sink gzip).Taken (operate_all encoder reserve os (next, e.shared)).0
          (operate_all encoder reserve os (next, e.shared)).1)
        (append_assoc plain (take took.count buf) rest ∙ ap (λ x. plain ++ (x ++ rest)) same)
        (operate_all-Taken gzip os next e.shared (plain ++ take took.count buf) calm.1 took.still)
  operate_all-Taken gzip (flushes ∷ os) inner shared plain calm t =
      let (next, e) = flush_body encoder inner shared in
      operate_all-Taken gzip os next e.shared plain calm.1
        ((sink gzip).flush_body-Kept inner shared plain t).still
  operate_all-Taken gzip (aborts e ∷ os) inner shared plain calm t = absurd calm.0

  -- whether the builder compresses
  abbrev pub compressed : StreamingBodyBuilder → Bool
  compressed b = b.gzips && ltb 0 b.gzip_level

  build-Taken :
      (b : StreamingBodyBuilder) (headers : HeaderMap) (shared : Shared E) (w : Inner G)
      → 0 < b.chunk_size
      → build encoder b ≡ (headers, (shared, some w))
      → (sink (compressed b)).Taken w shared []
  unfolding build
  build-Taken b headers shared w positive built = go b.body_needed (ap (λ x. x.1) built)
    where
      first : Inner G
      first =
          build_writer encoder (compressed b) (with_chunk_size {E = E} b.chunk_size).0 b.gzip_level

      queue : Shared E
      queue = (with_chunk_size b.chunk_size).1

      go :
          (needed : Bool)
          → ◌≡◌ {A = Shared E × Option (Inner G)}
              (if needed
                then (queue, some first)
                else ((drop_writer (with_chunk_size {E = E} b.chunk_size).0 queue).shared, none))
              (shared, some w)
          → (sink (compressed b)).Taken w shared []
      go false e = let none_yet = ap (λ x. x.1) e in cc
      go true e =
          let same_queue : queue ≡ shared = ap (λ x. x.0) e in
          let given : some first ≡ some w = ap (λ x. x.1) e in
          let same : first ≡ w = cc in
          subst (λ x. (sink (compressed b)).Taken x shared []) same
            (subst (λ x. (sink (compressed b)).Taken first x []) same_queue
              (build_writer-Taken encoder decode compresses reserve enough (compressed b)
                b.chunk_size b.gzip_level positive))

  module _ {D S : Type 0} (api : StreamApi D E S) (bytes_of : D → Bytes)
      (kept : (v : Bytes) → bytes_of (api.from_vec v) ≡ v) where
    -- With an encoder as documented, an allocator that reserves what it is asked for, and a builder with
    -- chunks of any size but 0 that gives a writer: after any writes and flushes, and the drop of the
    -- writer, whoever polls the body more often than it has bytes gets all of them and the end. They
    -- are, or with compression decode to, exactly the bytes that the writes reported as written.
    pub build-streams :
        (b : StreamingBodyBuilder) (headers : HeaderMap) (shared : Shared E) (w : Inner G)
        (os : List (Operation E))
        → 0 < b.chunk_size
        → build encoder b ≡ (headers, (shared, some w))
        → All (IsPlain encoder reserve enough) os
        → (z : Bytes) × Reads decode (compressed b) z (reported encoder reserve os (w, shared))
          × ((n cx : ℕ)
              → length z < n
              → collect api bytes_of n
                  (chunker
                    (drop_inner encoder
                      (operate_all encoder reserve os (w, shared)).0
                      (operate_all encoder reserve os (w, shared)).1).0)
                  cx
                ≡ (z, complete))
    build-streams b headers shared w os positive built calm =
        let (inner, after) = operate_all encoder reserve os (w, shared) in
        let taken =
          operate_all-Taken (compressed b) os w shared [] calm
            (build-Taken b headers shared w positive built) in
        let (closed, reads) =
          (sink (compressed b)).drop_inner-Closed inner after
            (reported encoder reserve os (w, shared)) taken in
        let queue = (drop_inner encoder inner after).0 in
        (
          left queue.state,
          reads,
          λ n cx lt. collect-Closed api bytes_of kept n queue.state queue.waker cx closed lt,
        )
