-- ===== src/Tests/Listing.antt =====
-- examples/serve_dir.rs: the listing of a directory; src/gzip.rs: a streamed body with compression
use http_serve.Base.{
  ◌≡◌, refl, Bool, true, false, not, some, List, [], ◌∷◌, ◌++◌, arith, Bytes, codes, bytes_eq, ok,
  ap, none, ℕ, ◌<◌, length, if◌then◌else◌,
}
use http_serve.Http.{get, RequestHeaders, accept_encoding}
use http_serve.Io.{IoError, Files, finished}
use http_serve.Dir.{Node}
use http_serve.Serving.{Response}
use http_serve.Examples.Listing.{DirCrates}
use http_serve.Examples.ServeDir.{Request, serve}
use http_serve.Examples.Page.{page}
use http_serve.Examples.Listed.{Answers, serve-directory}
use http_serve.Chunker.{with_chunk_size, Writer, write, flush, drop_writer}
use http_serve.Gzip.{Encoder, Inner, gzipped, drop_inner}
use http_serve.Gzip.Aborted.{Operation, writes, flushes, operate_all}
use http_serve.Gzip.Streamed.{reported, build-streams}
use http_serve.Negotiation.{StreamingBodyBuilder}
use http_serve.Stream.{chunker}
use http_serve.Stream.Collect.{complete, collect}
use http_serve.File.{stream_api, FileStream}
use http_serve.Gzip.Progress.{RawTaken, start-RawTaken, as_effect, write-Took, flush-Kept}
use http_serve.Gzip.Collected.{drop_writer-Closed}
use http_serve.Gzip.Sink.{Compresses}
use http_serve.Tests.Serving.{crates}
use http_serve.Tests.File.{read_two, conversions, keeps}
use http_serve.Tests.Examples.{files, dir_crates}

-- A directory with four entries, one of which is itself.
abbrev names : List Bytes
names = codes "src" ∷ codes "." ∷ codes "a.txt" ∷ codes ".." ∷ []

abbrev kinds : Bytes → Bool
kinds name = not (bytes_eq name (codes "a.txt"))

abbrev insert : (Bytes → Bytes → Bool) → Bytes → List Bytes → List Bytes
insert le e [] = e ∷ []
insert le e (f ∷ es) = let rest = insert le e es in if le e f then e ∷ f ∷ es else f ∷ rest

abbrev insertion_sort : (Bytes → Bytes → Bool) → List Bytes → List Bytes
insertion_sort le [] = []
insertion_sort le (e ∷ es) = insert le e (insertion_sort le es)

abbrev tree : Files Bytes Bool
tree = record files { open_file = λ name. ok (codes "tree"); metadata = λ f. ok true }

abbrev tree_crates : DirCrates Bytes Bytes
tree_crates = record dir_crates {
  entries = λ dir. some names;
  file_type = λ e. some (kinds e);
  sort_unstable_by = insertion_sort;
}

abbrev node : Node Bytes Bool
node = record { file = codes "tree"; meta = true; auto_gzip = false; is_gzipped = false }

test_page :
    page tree_crates (codes "/") kinds names
    ≡ codes "<!DOCTYPE html>\n<title>directory listing</title>\n<ul>\n"
      ++ codes "<li><a href=\"a.txt\">a.txt</a>\n"
      ++ codes "<li><a href=\"src/\">src/</a>\n"
      ++ codes "</ul>\n"
unfolding http_serve.Std.Str.bytes_le bytes_eq
test_page = refl

-- An encoder that leaves the bytes as they are.
abbrev identity : Encoder IoError Writer
identity = record {
  encode = λ w level. w;
  write_encoded = λ w shared buf. as_effect (write (λ n. n) w shared buf);
  flush_encoded = λ w shared. as_effect (flush w shared);
  drop_encoded = λ w shared. ((drop_writer w shared).shared, []);
  get_mut = λ w. w;
}

abbrev identity-Compresses : Compresses identity some
identity-Compresses = record {
  Given = RawTaken;
  encode-Given = λ cap level positive. start-RawTaken cap positive;
  write_encoded-Took = write-Took (λ n. n) (λ n. omega arith);
  flush_encoded-Kept = flush-Kept (λ n. n) (λ n. omega arith);
  drop_encoded-Closed = λ w shared plain given.
      let (closed, same) = drop_writer-Closed (λ n. n) (λ n. omega arith) w shared plain given in
      (closed, ap some same);
}

abbrev accepting : RequestHeaders
accepting accept_encoding = some (codes "gzip")
accepting _ = none

abbrev request : Request
request = record { method = get; path = codes "/"; headers = accepting }

serve-directory_example :
    (res : Response Bytes IoError FileStream) × (serve tree conversions identity
        (λ n. n)
        tree_crates
        crates
        (λ e. codes "error")
        false
        5
        request
      ≡ finished res)
    × Answers tree conversions keeps identity some identity-Compresses
        (λ n. n)
        (λ n. omega arith)
        tree_crates
        crates
        (λ e. codes "error")
        true
        (λ z. some z ≡ some (page tree_crates (codes "/") kinds names))
        node
        res
unfolding http_serve.Dir.get http_serve.Negotiation.should_gzip http_serve.Std.Str.ends_with
    http_serve.Std.Str.bytes_le bytes_eq http_serve.Tests.Http.ascii_to_str
serve-directory_example =
    serve-directory tree conversions keeps identity some identity-Compresses (λ n. n)
      (λ n. omega arith) tree_crates crates (λ e. codes "error") request node names kinds refl true
      (refl, (refl, (refl, (refl, tt)))) refl false 5 refl refl refl

abbrev small_chunks : StreamingBodyBuilder
small_chunks = record { chunk_size = 2; gzip_level = 6; gzips = true; body_needed = true }

abbrev written : List (Operation IoError)
written = writes (codes "hello") ∷ flushes ∷ writes (codes "world") ∷ []

abbrev new_writer : Inner Writer
new_writer = gzipped (with_chunk_size {E = IoError} 2).0

build-streams_example :
    (z : Bytes) × (some z
      ≡ some (reported identity (λ n. n) written (new_writer, (with_chunk_size 2).1)))
    × ((n cx : ℕ)
        → length z < n
        → collect
            (stream_api conversions read_two)
            keeps.bytes_of
            n
            (chunker
              (drop_inner identity
                (operate_all identity (λ k. k) written (new_writer, (with_chunk_size 2).1)).0
                (operate_all identity (λ k. k) written (new_writer, (with_chunk_size 2).1)).1).0)
            cx
          ≡ (z, complete))
unfolding http_serve.Gzip.build
build-streams_example =
    build-streams identity some identity-Compresses (λ n. n) (λ n. omega arith)
      (stream_api conversions read_two) keeps.bytes_of keeps.bytes_of-from_vec small_chunks _ _ _
      written (omega arith) refl (tt, (tt, (tt, tt)))
