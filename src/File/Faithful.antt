-- ===== src/File/Faithful.antt =====
-- A file of fixed contents keeps the promise of `Entity::get_range`, so that serving it gives the
-- file's bytes.
use http_serve.Base.{
  ℕ, ◌≤◌, ◌≡◌, refl, sym, ap, ◌∙◌, none, some, [], ◌∷◌, ◌++◌, arith, Bytes, ok, err, length,
  u64_max, ◌<◌, min, Bool, true, false, ltb, ◌==◌, if◌then◌else◌, Result, wrapping_sub,
  wrapping_sub_lem, Option,
}
use http_serve.Http.{
  RequestHeaders, Method, get, head, other, SystemTime, HttpCrates, HeaderMap, HeaderName,
}
use http_serve.Io.{IoError, Pread, Attempt, finished, since_epoch}
use http_serve.Range.{ByteRange}
use http_serve.Body.{ready, pending, Polled}
use http_serve.Body.Prompt.{IsBrisk, Prompt}
use http_serve.Body.Faithful.{slice, PollOwes, Faithful}
use http_serve.File.{
  Conversions, ChunkedReadFile, entity_of, etag, fmt_etag, serve_file, unfolded, left_of, ended,
  stream_api, poll_range, off_t_max, read_at, on_read, on_chunk, chunk_size, FileStream,
}
use http_serve.File.Contents.{Reads, IsLeft, Gives, poll_range-Gives}
use http_serve.Serving.{Response, serve}
use http_serve.Serving.Announced.{Has, OnlyAdds}
use http_serve.Serving.Contents.{Carries, Delivers, Completes, serve-Delivers, serve-Completes}

-- The documented behaviour of `HeaderMap::extend`, which appends: the headers that are there stay.
abbrev pub ExtendKeeps : HttpCrates → Type 0
ExtendKeeps crates =
    (more : HeaderMap) (k : HeaderName) (v : Bytes) (h : HeaderMap)
    → Has k v h
    → Has k v (crates.extend h more)

entity_of-OnlyAdds :
    {F : Type 0} (crates : HttpCrates) (file : ChunkedReadFile F) (tag : Option Bytes)
    → ExtendKeeps crates
    → OnlyAdds (entity_of crates file tag)
entity_of-OnlyAdds crates file tag extends k v h kept has = extends file.headers k v h has

-- The bytes of a chunk, and what the conversions of an entity's data type keep of them.
pub record KeepsBytes {D E : Type 0} (conversions : Conversions D E) : Type 0 where
  pub bytes_of : D → Bytes
  pub data_len-bytes_of : (d : D) → conversions.data_len d ≡ length (bytes_of d)
  pub bytes_of-from_vec : (v : Bytes) → bytes_of (conversions.from_vec v) ≡ v

pub end-poll_range : (pread : Pread) (left : ByteRange) → (poll_range pread left).1.end ≡ left.end
unfolding poll_range read_at
end-poll_range pread left =
    go (read_at pread (min chunk_size (wrapping_sub left.end left.start)) left.start)
      (left.start == left.end)
  where
    go :
        (o : Result Bytes IoError) (b : Bool)
        → (if b then (ready none, left) else on_chunk o left).1.end ≡ left.end
    go o true = refl
    go (err e) false = refl
    go (ok v) false = refl

module _ {D E : Type 0} (conversions : Conversions D E) (keeps : KeepsBytes conversions)
    (contents : Bytes) (pread : Pread) (reads : Reads contents pread)
    (fits : length contents ≤ u64_max) where
  open keeps use {bytes_of, data_len-bytes_of, bytes_of-from_vec}

  abbrev pub Owes : FileStream → Bytes → Type 0
  Owes ended b = ⊥
  Owes (left_of left) b = IsLeft left × (left.end ≤ length contents) × (b ≡ slice contents left)

  pub unfolded-Owes :
      (p : Polled Bytes IoError) (before left : ByteRange) (b : Bytes)
      → b ≡ slice contents before
      → Gives contents before (p, left)
      → left.end ≤ length contents
      → PollOwes bytes_of Owes b (unfolded conversions (p, left))
  unfolded-Owes pending before left b owed (valid, split, at_end) inside =
      (valid, inside, owed ∙ split)
  unfolded-Owes (ready none) before left b owed (valid, split, at_end) inside =
      owed ∙ split ∙ at_end refl
  unfolded-Owes (ready (some (err e))) before left b owed g inside = tt
  unfolded-Owes (ready (some (ok v))) before left b owed (valid, split, at_end) inside = (
    slice contents left,
    owed ∙ split ∙ ap (λ x. x ++ slice contents left) (sym (bytes_of-from_vec v)),
    (valid, inside, refl),
  )

  pub poll_file-Owes :
      (s : FileStream) (b : Bytes)
      → Owes s b
      → PollOwes bytes_of Owes b ((stream_api conversions pread).poll_stream s)
  poll_file-Owes (left_of left) b (valid, inside, owed) =
      unfolded-Owes (poll_range pread left).0 left (poll_range pread left).1 b owed
        (poll_range-Gives contents pread reads left valid)
        (omega (arith, end-poll_range pread left))
  poll_file-Owes ended b owes = absurd owes

  -- The streams of a file give the bytes of their ranges.
  abbrev pub file-Faithful : Faithful (stream_api conversions pread) contents
  file-Faithful = record {
    bytes_of = bytes_of;
    Owes = Owes;
    data_len-bytes_of = data_len-bytes_of;
    bytes_of-from_vec = bytes_of-from_vec;
    get_range-Owes = λ r le below. ((le, omega arith), below, refl);
    poll_stream-Owes = poll_file-Owes;
  }

  -- The documented behaviour of `pread` on a sound file: within the file it gives some bytes.
  abbrev pub ReadsOn : Type 0
  ReadsOn =
      (n offset : ℕ)
      → 0 < n
      → offset < length contents
      → (v : Bytes) × (pread n offset ≡ ok v) × (0 < length v)

  poll_range-IsBrisk :
      length contents ≤ off_t_max
      → ReadsOn
      → (left : ByteRange) (b : Bytes) → Owes (left_of left) b
      → IsBrisk bytes_of (λ s. 0) 0 (unfolded conversions (poll_range pread left))
  unfolding poll_range read_at
  poll_range-IsBrisk small reads_on left b (valid, inside, owed) =
      go (left.start == left.end) (λ differ. ground arith)
    where
      width : ℕ
      width = wrapping_sub left.end left.start

      given :
          (o : Result Bytes IoError) (v : Bytes)
          → o ≡ ok v
          → 0 < length v
          → IsBrisk bytes_of
              (λ s. 0)
              0
              (unfolded conversions (on_chunk (on_read left.start o) left))
      given (err e) v same more = cc
      given (ok []) v same more = let empty : [] ≡ v = cc in absurd (omega (arith, ap length empty))
      given (ok (c ∷ w)) v same more = omega (arith, ap length (bytes_of-from_vec (c ∷ w)))

      go :
          (b : Bool)
          → (b ≡ false → left.start < left.end)
          → IsBrisk bytes_of
              (λ s. 0)
              0
              (unfolded conversions (
                if b
                then (ready none, left)
                else on_chunk (read_at pread (min chunk_size width) left.start) left))
      go true h = tt
      go false h =
          let lt = h refl in
          let size = wrapping_sub_lem left.end left.start valid.0 valid.1 in
          let (v, same, more) =
            reads_on (min chunk_size width) left.start (omega arith) (omega arith) in
          let near : ltb off_t_max left.start ≡ false = ground arith in
          rw near (given (pread (min chunk_size width) left.start) v same more)

  poll_file-IsBrisk :
      length contents ≤ off_t_max
      → ReadsOn
      → (s : FileStream) (b : Bytes) → Owes s b
      → IsBrisk bytes_of (λ s'. 0) 0 ((stream_api conversions pread).poll_stream s)
  poll_file-IsBrisk small reads_on (left_of left) b owes =
      poll_range-IsBrisk small reads_on left b owes
  poll_file-IsBrisk small reads_on ended b owes = absurd owes

  file-Prompt :
      length contents ≤ off_t_max
      → ReadsOn
      → Prompt (stream_api conversions pread) contents file-Faithful 0
  file-Prompt small reads_on = record {
    spare = λ s. 0;
    spare-le = λ s. omega arith;
    poll_stream-IsBrisk = poll_file-IsBrisk small reads_on;
  }

  module _ {F : Type 0} (crates : HttpCrates) (extends : ExtendKeeps crates)
      (file : ChunkedReadFile F) (same : file.len ≡ length contents) (mtime : SystemTime)
      (modern : file.mtime ≡ since_epoch mtime) (now : SystemTime) (req_hdrs : RequestHeaders) where
    abbrev response : Method → Option Bytes → Response D E FileStream
    response m tag =
        serve (stream_api conversions pread) crates (entity_of crates file tag) now m req_hdrs

    abbrev served : Method → Attempt (Response D E FileStream)
    served m = serve_file conversions crates pread file now m req_hdrs

    serve_file-finished :
        (m : Method) → (tag : Option Bytes) × (served m ≡ finished (response m tag))
    unfolding serve_file etag serve
    serve_file-finished get = (some (fmt_etag file.inode file.len mtime), rw modern refl)
    serve_file-finished head = (some (fmt_etag file.inode file.len mtime), rw modern refl)
    serve_file-finished other = (none, refl)

    -- For every request for a file of fixed contents and their length, a u64, that was modified at the
    -- Unix epoch or later, with `pread`, `HeaderMap::extend` and the conversions as documented,
    -- whatever the sizes of the reads and wherever one fails: `serve` does not panic; a body of
    -- announced length is for a range of the contents or for the parts of some ranges; Content-Length
    -- is the number of these bytes; and whoever polls the body gets the first of them, all of them if
    -- the body comes to its end, and no poll panics.
    pub serve-file-Delivers :
        (m : Method)
        → (res : Response D E FileStream) × (served m ≡ finished res)
          × Carries contents
              (Delivers (stream_api conversions pread) contents file-Faithful)
              res.parts.headers
              res.body
    serve-file-Delivers m =
        let (tag, done) = serve_file-finished m in
        (
          response m tag,
          done,
          serve-Delivers (stream_api conversions pread) contents file-Faithful crates
              (entity_of crates file tag) same fits (entity_of-OnlyAdds crates file tag extends) now
              m req_hdrs,
        )

    -- If moreover each read within the file gives some bytes and the length is an `off_t`, polling
    -- such a body more often than it has bytes and states left gets exactly all of its bytes and its
    -- end.
    pub serve-file-Completes :
        (m : Method)
        → length contents ≤ off_t_max
        → ReadsOn
        → (res : Response D E FileStream) × (served m ≡ finished res)
          × Carries contents
              (Completes (stream_api conversions pread) contents file-Faithful 0)
              res.parts.headers
              res.body
    serve-file-Completes m small reads_on =
        let (tag, done) = serve_file-finished m in
        (
          response m tag,
          done,
          serve-Completes (stream_api conversions pread) contents file-Faithful crates
              (entity_of crates file tag) same fits (entity_of-OnlyAdds crates file tag extends) now
              m req_hdrs 0 (file-Prompt small reads_on),
        )
