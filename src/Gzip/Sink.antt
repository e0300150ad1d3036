-- ===== src/Gzip/Sink.antt =====
-- What the user of a writer relies on, whether it compresses or not: texts go in, and when it is
-- dropped the queue holds bytes that read as them.
use http_serve.Base.{ℕ, ◌<◌, ◌≤◌, ◌≡◌, Bytes, take, ◌++◌, refl, Option, some, [], Bool, true, false}
use http_serve.Chunker.{flush, Shared, with_chunk_size, write}
use http_serve.Chunker.Closed.{Closed, left}
use http_serve.Gzip.{
  build_writer, flush_body, Encoder, Effect, Inner, raw, gzipped, dead, drop_inner, write_body,
  settle,
}
use http_serve.Gzip.Progress.{
  start-RawTaken, Kept, flush-Kept, Took, RawTaken, as_effect, write-Took,
}
use http_serve.Gzip.Collected.{drop_writer-Closed}

module _ {E G : Type 0} where
  -- `Reads` says of the bytes of a body what text they stand for.
  pub record Sink (encoder : Encoder E G) (reserve : ℕ → ℕ) (Reads : Bytes → Bytes → Type 0)
      : Type 1 where
    pub Taken : Inner G → Shared E → Bytes → Type 0
    pub write_body-Took :
        (inner : Inner G) (shared : Shared E) (plain b : Bytes)
        → Taken inner shared plain
        → Took Taken plain b (write_body encoder reserve inner shared b)
    pub flush_body-Kept :
        (inner : Inner G) (shared : Shared E) (plain : Bytes)
        → Taken inner shared plain
        → Kept Taken plain (flush_body encoder inner shared)
    pub drop_inner-Closed :
        (inner : Inner G) (shared : Shared E) (plain : Bytes)
        → Taken inner shared plain
        → Closed (drop_inner encoder inner shared).0.state
          × Reads (left (drop_inner encoder inner shared).0.state) plain

  -- A call that succeeds leaves the writer in its place.
  settle-Took :
      (encoder : Encoder E G) {A : Type 0} (as_inner : A → Inner G)
      (P : A → Shared E → Bytes → Type 0) (Q : Inner G → Shared E → Bytes → Type 0)
      (agree : (a : A) (s : Shared E) (x : Bytes) → P a s x → Q (as_inner a) s x) (plain b : Bytes)
      (a : A) (e : Effect E ℕ)
      → Took P plain b (a, e)
      → Took Q plain b (settle encoder e.result (as_inner a) e.shared e.woken)
  settle-Took encoder as_inner P Q agree plain b a e t = rw t.result_eq (record {
    count = t.count;
    positive = t.positive;
    result_eq = refl;
    still = agree a e.shared (plain ++ take t.count b) t.still;
  })

  settle-Kept :
      (encoder : Encoder E G) {A : Type 0} (as_inner : A → Inner G)
      (P : A → Shared E → Bytes → Type 0) (Q : Inner G → Shared E → Bytes → Type 0)
      (agree : (a : A) (s : Shared E) (x : Bytes) → P a s x → Q (as_inner a) s x) (plain : Bytes)
      (a : A) (e : Effect E (Unit {0}))
      → Kept P plain (a, e)
      → Kept Q plain (settle encoder e.result (as_inner a) e.shared e.woken)
  settle-Kept encoder as_inner P Q agree plain a e t =
      rw t.result_eq (record { result_eq = refl; still = agree a e.shared plain t.still })

  -- Without compression, the bytes are the text.
  module _ (encoder : Encoder E G) (reserve : ℕ → ℕ) (enough : (n : ℕ) → n ≤ reserve n) where
    abbrev pub IsRawTaken : Inner G → Shared E → Bytes → Type 0
    IsRawTaken (raw w) shared plain = RawTaken w shared plain
    IsRawTaken (gzipped g) shared plain = ⊥
    IsRawTaken dead shared plain = ⊥

    pub write_raw-Took :
        (inner : Inner G) (shared : Shared E) (plain b : Bytes)
        → IsRawTaken inner shared plain
        → Took IsRawTaken plain b (write_body encoder reserve inner shared b)
    unfolding write_body
    write_raw-Took (raw w) shared plain b t =
        let c = as_effect (write reserve w shared b) in
        settle-Took encoder raw RawTaken IsRawTaken (λ a s x h. h) plain b c.0 c.1
          (write-Took reserve enough w shared plain b t)
    write_raw-Took (gzipped g) shared plain b t = absurd t
    write_raw-Took dead shared plain b t = absurd t

    pub flush_raw-Kept :
        (inner : Inner G) (shared : Shared E) (plain : Bytes)
        → IsRawTaken inner shared plain
        → Kept IsRawTaken plain (flush_body encoder inner shared)
    unfolding flush_body
    flush_raw-Kept (raw w) shared plain t =
        let c = as_effect (flush w shared) in
        settle-Kept encoder raw RawTaken IsRawTaken (λ a s x h. h) plain c.0 c.1
          (flush-Kept reserve enough w shared plain t)
    flush_raw-Kept (gzipped g) shared plain t = absurd t
    flush_raw-Kept dead shared plain t = absurd t

    pub drop_raw-Closed :
        (inner : Inner G) (shared : Shared E) (plain : Bytes)
        → IsRawTaken inner shared plain
        → Closed (drop_inner encoder inner shared).0.state
          × (left (drop_inner encoder inner shared).0.state ≡ plain)
    unfolding drop_inner
    drop_raw-Closed (raw w) shared plain t = drop_writer-Closed reserve enough w shared plain t
    drop_raw-Closed (gzipped g) shared plain t = absurd t
    drop_raw-Closed dead shared plain t = absurd t

    abbrev pub raw_sink : Sink encoder reserve (λ z plain. z ≡ plain)
    raw_sink = record {
      Taken = IsRawTaken;
      write_body-Took = write_raw-Took;
      flush_body-Kept = flush_raw-Kept;
      drop_inner-Closed = drop_raw-Closed;
    }

  -- The documented behaviour of an encoder around a chunk writer whose queue nobody polls or aborts.
  -- `Given` says that the encoder was given these bytes. A write takes some of a text, a flush succeeds, and when the
  -- encoder is dropped, the queue holds bytes that decode to all that it was given.
  pub record Compresses (encoder : Encoder E G) (decode : Bytes → Option Bytes) : Type 1 where
    pub Given : G → Shared E → Bytes → Type 0
    pub encode-Given :
        (cap level : ℕ)
        → 0 < cap
        → Given (encoder.encode (with_chunk_size {E = E} cap).0 level) (with_chunk_size cap).1 []
    pub write_encoded-Took :
        (g : G) (shared : Shared E) (plain b : Bytes)
        → Given g shared plain
        → Took Given plain b (encoder.write_encoded g shared b)
    pub flush_encoded-Kept :
        (g : G) (shared : Shared E) (plain : Bytes)
        → Given g shared plain
        → Kept Given plain (encoder.flush_encoded g shared)
    pub drop_encoded-Closed :
        (g : G) (shared : Shared E) (plain : Bytes)
        → Given g shared plain
        → Closed (encoder.drop_encoded g shared).0.state
          × (decode (left (encoder.drop_encoded g shared).0.state) ≡ some plain)

  module _ (encoder : Encoder E G) (reserve : ℕ → ℕ) (decode : Bytes → Option Bytes)
      (compresses : Compresses encoder decode) where
    open compresses use {Given, write_encoded-Took, flush_encoded-Kept, drop_encoded-Closed}

    abbrev pub IsGzipTaken : Inner G → Shared E → Bytes → Type 0
    IsGzipTaken (gzipped g) shared plain = Given g shared plain
    IsGzipTaken (raw w) shared plain = ⊥
    IsGzipTaken dead shared plain = ⊥

    pub write_gzip-Took :
        (inner : Inner G) (shared : Shared E) (plain b : Bytes)
        → IsGzipTaken inner shared plain
        → Took IsGzipTaken plain b (write_body encoder reserve inner shared b)
    unfolding write_body
    write_gzip-Took (gzipped g) shared plain b t =
        let c = encoder.write_encoded g shared b in
        settle-Took encoder gzipped Given IsGzipTaken (λ a s x h. h) plain b c.0 c.1
          (write_encoded-Took g shared plain b t)
    write_gzip-Took (raw w) shared plain b t = absurd t
    write_gzip-Took dead shared plain b t = absurd t

    pub flush_gzip-Kept :
        (inner : Inner G) (shared : Shared E) (plain : Bytes)
        → IsGzipTaken inner shared plain
        → Kept IsGzipTaken plain (flush_body encoder inner shared)
    unfolding flush_body
    flush_gzip-Kept (gzipped g) shared plain t =
        let c = encoder.flush_encoded g shared in
        settle-Kept encoder gzipped Given IsGzipTaken (λ a s x h. h) plain c.0 c.1
          (flush_encoded-Kept g shared plain t)
    flush_gzip-Kept (raw w) shared plain t = absurd t
    flush_gzip-Kept dead shared plain t = absurd t

    pub drop_gzip-Closed :
        (inner : Inner G) (shared : Shared E) (plain : Bytes)
        → IsGzipTaken inner shared plain
        → Closed (drop_inner encoder inner shared).0.state
          × (decode (left (drop_inner encoder inner shared).0.state) ≡ some plain)
    unfolding drop_inner
    drop_gzip-Closed (gzipped g) shared plain t = drop_encoded-Closed g shared plain t
    drop_gzip-Closed (raw w) shared plain t = absurd t
    drop_gzip-Closed dead shared plain t = absurd t

    abbrev pub gzip_sink : Sink encoder reserve (λ z plain. decode z ≡ some plain)
    gzip_sink = record {
      Taken = IsGzipTaken;
      write_body-Took = write_gzip-Took;
      flush_body-Kept = flush_gzip-Kept;
      drop_inner-Closed = drop_gzip-Closed;
    }

-- What the bytes of a body stand for: themselves, or what they decode to.
abbrev pub Reads : (Bytes → Option Bytes) → Bool → Bytes → Bytes → Type 0
Reads decode false z text = z ≡ text
Reads decode true z text = decode z ≡ some text

-- The interface for the writer of a response that is compressed or not.
module _ {E G : Type 0} (encoder : Encoder E G) (decode : Bytes → Option Bytes)
    (compresses : Compresses encoder decode) (reserve : ℕ → ℕ)
    (enough : (n : ℕ) → n ≤ reserve n) where
  abbrev pub sink_of : (gzip : Bool) → Sink encoder reserve (Reads decode gzip)
  sink_of false = raw_sink encoder reserve enough
  sink_of true = gzip_sink encoder reserve decode compresses

  -- A new writer was given nothing.
  pub build_writer-Taken :
      (gzip : Bool) (cap level : ℕ)
      → 0 < cap
      → (sink_of gzip).Taken
          (build_writer encoder gzip (with_chunk_size {E = E} cap).0 level)
          (with_chunk_size cap).1
          []
  build_writer-Taken false cap level positive = start-RawTaken cap positive
  build_writer-Taken true cap level positive = compresses.encode-Given cap level positive
