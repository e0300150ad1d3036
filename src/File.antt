-- ===== src/File.antt =====
-- src/file.rs, and the Unix part of src/platform.rs: a file as an entity.
pub mod Contents
pub mod Faithful
pub mod Tags
use http_serve.Base.{
  ℕ, ◌-◌, ◌^◌, ◌/◌, ◌%◌, min, Option, none, some, [], ◌∷◌, ◌++◌, ltb, ◌==◌, if◌then◌else◌, not,
  Bytes, codes, Result, ok, err, ◌>>=◌, length, wrapping_add, wrapping_sub,
}
use http_serve.Std.Num.{fmt_hex, fmt_decimal}
use http_serve.Http.{SystemTime, HeaderMap, HttpCrates, Method, get, head, RequestHeaders}
use http_serve.Io.{
  IoError, Attempt, finished, panics, Timestamp, before_epoch, since_epoch, invalid_input,
  unexpected_eof, other, Pread, Files,
}
use http_serve.Range.{ByteRange}
use http_serve.Body.{Poll, ready, pending, Polled, StreamApi}
use http_serve.Serving.{Entity, Response, serve}

abbrev pub chunk_size : ℕ
chunk_size = 65536

-- `off_t` has 64 bits, one of them for the sign.
abbrev pub off_t_max : ℕ
off_t_max = 2 ^ 63 - 1

abbrev pub on_read : ℕ → Result Bytes IoError → Result Bytes IoError
on_read offset (err e) = err e
on_read offset (ok []) = err (unexpected_eof offset)
on_read offset (ok (c ∷ v)) = ok (c ∷ v)

-- `FileExt::read_at`
unfoldable pub read_at : Pread → ℕ → ℕ → Result Bytes IoError
read_at pread size offset =
    if ltb off_t_max offset
    then err (invalid_input (codes "offset too large"))
    else on_read offset (pread size offset)

-- what reading gave, with the range that is left
abbrev pub on_chunk : Result Bytes IoError → ByteRange → Polled Bytes IoError × ByteRange
on_chunk (err e) left = (ready (some (err e)), left)
on_chunk (ok v) left =
    (ready (some (ok v)), record left { start = wrapping_add left.start (length v) })

-- A poll of the stream that `get_range` unfolds, up to its end. Its state is the range that is left.
unfoldable pub poll_range : Pread → ByteRange → Polled Bytes IoError × ByteRange
unfolding read_at
poll_range pread left =
    let chunk =
      on_chunk (read_at pread (min chunk_size (wrapping_sub left.end left.start)) left.start)
        left in
    if left.start == left.end then (ready none, left) else chunk

-- `FileInfo`
pub record FileInfo : Type 0 where
  pub inode : ℕ
  pub len : ℕ
  pub mtime : Timestamp

-- `ChunkedReadFileInner`
pub record ChunkedReadFile (F : Type 0) : Type 0 where
  pub len : ℕ
  pub inode : ℕ
  pub mtime : Timestamp
  pub f : F
  pub headers : HeaderMap

-- The entity tag's text: `{:x}` of four numbers, the last two of which are `as_secs` and `subsec_nanos`
-- of the time since the epoch.
unfoldable pub fmt_etag : ℕ → ℕ → SystemTime → Bytes
fmt_etag inode len dur =
    codes "\""
    ++ (fmt_hex inode
        ++ (codes ":"
            ++ (fmt_hex len
                ++ (codes ":"
                    ++ (fmt_hex (dur / 10 ^ 9)
                        ++ (codes ":" ++ (fmt_hex (dur % 10 ^ 9) ++ codes "\"")))))))

-- `last_modified`, as `serve` uses it: where there is a tag, the time is not before the epoch.
abbrev pub last_modified : Timestamp → Option SystemTime
last_modified (before_epoch ns) = none
last_modified (since_epoch t) = some t

module _ {F : Type 0} where
  -- `etag`, with the `expect` on `duration_since(UNIX_EPOCH)`
  abbrev etag_at : ChunkedReadFile F → Timestamp → Attempt Bytes
  etag_at file (before_epoch ns) = panics
  etag_at file (since_epoch dur) = finished (fmt_etag file.inode file.len dur)

  unfoldable pub etag : ChunkedReadFile F → Attempt Bytes
  unfolding fmt_etag
  etag file = etag_at file file.mtime

  -- `len`, `last_modified` and `add_headers`, with what `etag` gave, if it was called
  abbrev pub entity_of : HttpCrates → ChunkedReadFile F → Option Bytes → Entity
  entity_of crates file tag = record {
    len = file.len;
    tag = tag;
    modified = last_modified file.mtime;
    add_headers = λ h. crates.extend h file.headers;
  }

module _ {F M : Type 0} (files : Files F M) where
  open files use {metadata, is_file, ino, modified, pread}

  -- `platform::file_info`
  unfoldable pub file_info : F → M → Result FileInfo IoError
  file_info f m =
      modified m >>= λ mtime. ok (record { inode = ino m; len = files.len m; mtime = mtime })

  unfoldable pub new_with_metadata : F → M → HeaderMap → Result (ChunkedReadFile F) IoError
  unfolding file_info
  new_with_metadata file m headers =
      if not (is_file m)
      then err (other (codes "expected a file"))
      else file_info file m >>= λ info. ok (record {
        len = info.len;
        inode = info.inode;
        mtime = info.mtime;
        f = file;
        headers = headers;
      })

  -- `ChunkedReadFile::new`
  unfoldable pub new_file : F → HeaderMap → Result (ChunkedReadFile F) IoError
  unfolding new_with_metadata
  new_file file headers = metadata file >>= λ m. new_with_metadata file m headers

-- The conversions between the types of an entity's stream: `Buf::remaining`, `From<Vec<u8>>`, and
-- `From` of this crate's errors and of an I/O error. `polled_after_end` is what a poll of an `Unfold`
-- that has ended is taken for, anything at all: `Unfold` panics there.
pub record Conversions (D E : Type 0) : Type 0 where
  pub data_len : D → ℕ
  pub from_vec : Bytes → D
  pub too_short : ℕ → E
  pub too_long : ℕ → E
  pub from_io : IoError → E
  pub polled_after_end : Polled D E

-- The stream of a range of a file: what is left of it, or that it has ended.
pub data FileStream : Type 0 where
  left_of : ByteRange → FileStream
  ended : FileStream

module _ {D E : Type 0} (conversions : Conversions D E) where
  open conversions use {data_len, from_vec, too_short, too_long, from_io, polled_after_end}

  abbrev pub unfolded : Polled Bytes IoError × ByteRange → Polled D E × FileStream
  unfolded (ready (some (ok v)), left) = (ready (some (ok (from_vec v))), left_of left)
  unfolded (ready (some (err e)), left) = (ready (some (err (from_io e))), left_of left)
  unfolded (ready none, left) = (ready none, ended)
  unfolded (pending, left) = (pending, left_of left)

  abbrev poll_file : Pread → FileStream → Polled D E × FileStream
  poll_file pread (left_of left) = unfolded (poll_range pread left)
  poll_file pread ended = (polled_after_end, ended)

  -- The file's streams
  abbrev pub stream_api : Pread → StreamApi D E FileStream
  stream_api pread = record {
    poll_stream = poll_file pread;
    data_len = data_len;
    from_vec = from_vec;
    too_short = too_short;
    too_long = too_long;
    get_range = left_of;
  }

  module _ {F : Type 0} (crates : HttpCrates) (pread : Pread) (file : ChunkedReadFile F)
      (now : SystemTime) where
    abbrev serve_tagged : Method → RequestHeaders → Option Bytes → Response D E FileStream
    serve_tagged m req_hdrs tag =
        serve (stream_api pread) crates (entity_of crates file tag) now m req_hdrs

    abbrev on_etag : Method → RequestHeaders → Attempt Bytes → Attempt (Response D E FileStream)
    on_etag m req_hdrs panics = panics
    on_etag m req_hdrs (finished tag) = finished (serve_tagged m req_hdrs (some tag))

    -- `serve` of a file. It asks the entity for its tag only for GET and HEAD.
    unfoldable pub serve_file : Method → RequestHeaders → Attempt (Response D E FileStream)
    unfolding etag serve
    serve_file get req_hdrs = on_etag get req_hdrs (etag file)
    serve_file head req_hdrs = on_etag head req_hdrs (etag file)
    serve_file m req_hdrs = finished (serve_tagged m req_hdrs none)
