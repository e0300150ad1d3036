-- ===== src/Tests/File.antt =====
-- src/file.rs
use Prim.Native.Nat.{min}
use http_serve.Base.{
  ℕ, zero, suc, ◌≤◌, ◌≡◌, refl, ap, subst, none, [], ◌∷◌, ◌++◌, arith, Bytes, codes, take, drop,
  length, ok, some, length-take, length-drop, ◌∙◌, append_assoc, ◌↔◌, true,
}
use http_serve.Range.{ByteRange}
use http_serve.Body.{ready}
use http_serve.Io.{
  IoError, unexpected_eof, Pread, Attempt, finished, panics, since_epoch, before_epoch,
}
use http_serve.File.{poll_range, FileStream}
use http_serve.Etag.{weak_eq}
use http_serve.File.Tags.{Version, tag_of, fmt_etag-injective}
use http_serve.File.{fmt_etag, Conversions, ChunkedReadFile, etag, serve_file, stream_api}
use http_serve.File.Faithful.{
  ExtendKeeps, KeepsBytes, ReadsOn, file-Faithful, serve-file-Delivers, serve-file-Completes,
}
use http_serve.Serving.{Response}
use http_serve.Serving.Contents.{Carries, Delivers, Completes}
use http_serve.Http.{RequestHeaders, range, get}
use http_serve.Tests.Serving.{crates}
use http_serve.File.Contents.{Reads, reads_of}

-- A file whose reads give two bytes at most.
abbrev pub contents : Bytes
contents = codes "abcdefg"

abbrev pub read_two : Pread
read_two n offset = ok (take (min 2 n) (drop offset contents))

pub take-length-take : (k : ℕ) (s : Bytes) → take k s ≡ take (length (take k s)) s
take-length-take zero s = refl
take-length-take (suc k) [] = refl
take-length-take (suc k) (c ∷ s) = ap (◌∷◌ c) (take-length-take k s)

pub length-take_le : (k : ℕ) (s : Bytes) → length (take k s) ≤ k
length-take_le zero s = omega arith
length-take_le (suc k) [] = omega arith
length-take_le (suc k) (c ∷ s) = omega (arith, length-take_le k s)

pub read_two-Reads : Reads contents read_two
read_two-Reads n offset v e =
    let part = drop offset contents in
    let same : take (min 2 n) part ≡ v = cc in
    subst (λ x. (x ≡ take (length x) part) × (length x ≤ n)) same
      (take-length-take (min 2 n) part, omega (arith, length-take_le (min 2 n) part))

abbrev middle : ByteRange
middle = record { start = 1; end = 4 }

test_reads_of :
    ((reads_of read_two 2 middle).0 ≡ codes "bcd")
    × ((poll_range read_two (reads_of read_two 2 middle).1).0 ≡ ready none)
unfolding reads_of poll_range
test_reads_of = (refl, refl)

abbrev pub conversions : Conversions Bytes IoError
conversions = record {
  data_len = length;
  from_vec = λ v. v;
  too_short = unexpected_eof;
  too_long = unexpected_eof;
  from_io = λ e. e;
  polled_after_end = ready none;
}

abbrev pub keeps : KeepsBytes conversions
keeps = record { bytes_of = λ d. d; data_len-bytes_of = λ d. refl; bytes_of-from_vec = λ v. refl }

read_two-ReadsOn : ReadsOn conversions keeps contents read_two read_two-Reads (omega arith)
read_two-ReadsOn n offset more inside = (
  take (min 2 n) (drop offset contents),
  refl,
  omega (arith, length-take {0} (min 2 n) (drop offset contents), length-drop {0} offset contents),
)

abbrev file : ChunkedReadFile Unit
file = record { len = 7; inode = 4660; mtime = since_epoch 1500000000; f = tt; headers = [] }

pub crates-ExtendKeeps : ExtendKeeps crates
crates-ExtendKeeps more k v h (before, after, split) =
    (before, after ++ more, ap (λ x. x ++ more) split ∙ append_assoc before ((k, v) ∷ after) more)

-- a request for two ranges of the file
abbrev pub two_ranges : RequestHeaders
two_ranges range = some (codes "bytes=0-1,4-5")
two_ranges _ = none

abbrev response : Attempt (Response Bytes IoError FileStream)
response = serve_file conversions crates read_two file 5 get two_ranges

serve-file-Delivers_example :
    (res : Response Bytes IoError FileStream) × (response ≡ finished res)
    × Carries contents
        (Delivers
          (stream_api conversions read_two)
          contents
          (file-Faithful conversions keeps contents read_two read_two-Reads (omega arith)))
        res.parts.headers
        res.body
serve-file-Delivers_example =
    serve-file-Delivers conversions keeps contents read_two read_two-Reads (omega arith) crates
      crates-ExtendKeeps file refl 1500000000 refl 5 two_ranges get

serve-file-Completes_example :
    (res : Response Bytes IoError FileStream) × (response ≡ finished res)
    × Carries contents
        (Completes
          (stream_api conversions read_two)
          contents
          (file-Faithful conversions keeps contents read_two read_two-Reads (omega arith))
          0)
        res.parts.headers
        res.body
serve-file-Completes_example =
    serve-file-Completes conversions keeps contents read_two read_two-Reads (omega arith) crates
      crates-ExtendKeeps file refl 1500000000 refl 5 two_ranges get (omega arith) read_two-ReadsOn

-- a file that was modified before 1970
test_etag : etag (record file { mtime = before_epoch 1 }) ≡ panics
unfolding etag
test_etag = refl

abbrev version : ℕ → Version
version mtime = record { inode = 4660; len = 7; mtime = mtime }

fmt_etag-injective_example :
    (weak_eq (tag_of (version 1500000000)) (tag_of (version 1500000001)) ≡ true) ↔ (
      ((version 1500000000).inode ≡ (version 1500000001).inode)
      × ((version 1500000000).len ≡ (version 1500000001).len)
      × ((version 1500000000).mtime ≡ (version 1500000001).mtime))
fmt_etag-injective_example =
    fmt_etag-injective (version 1500000000) (version 1500000001)
      (omega arith, omega arith, omega arith) (omega arith, omega arith, omega arith)

test_fmt_etag : fmt_etag 4660 7 1500000000 ≡ codes "\"1234:7:1:1dcd6500\""
unfolding fmt_etag http_serve.Std.Num.fmt_hex
test_fmt_etag = refl
