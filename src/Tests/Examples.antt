-- ===== src/Tests/Examples.antt =====
-- examples/serve_dir.rs
use http_serve.Base.{
  Bool, true, false, not, some, [], ◌∷◌, ◌++◌, if◌then◌else◌, Bytes, codes, bytes_eq, ok, err,
}
use http_serve.Http.{get}
use http_serve.Io.{IoError, not_found, Files, since_epoch}
use http_serve.Gzip.{Encoder}
use http_serve.Chunker.{Writer, done}
use http_serve.Dir.{Node}
use http_serve.Serving.Contents.{Delivers}
use http_serve.Examples.Listing.{DirCrates}
use http_serve.Examples.ServeDir.{Request}
use http_serve.Tests.File.{read_two, two_ranges}

-- A directory with one file.
abbrev pub files : Files Bytes Bool
files = record {
  open_file =
      λ name. if bytes_eq name (codes "a.txt" ++ 0 ∷ []) then ok (codes "a.txt") else err not_found;
  metadata = λ f. ok false;
  is_dir = λ m. m;
  is_file = λ m. not m;
  ino = λ m. 9;
  len = λ m. 7;
  modified = λ m. ok (since_epoch 1500000000);
  pread = λ f. read_two;
}

abbrev pub dir_crates : DirCrates Bytes Bytes
dir_crates = record {
  entries = λ dir. some [];
  file_name = λ e. e;
  name_to_str = some;
  file_type = λ e. some false;
  fstatat = λ dir name. err 2;
  from_bits = some;
  contains_dir = λ mode. false;
  encode_minimal = λ s. s;
  first_raw = λ ext. some (codes "text/plain");
  sort_unstable_by = λ le es. es;
}

-- An encoder that keeps what it gets; no call of it is made below.
abbrev pub silent : Encoder IoError Writer
silent = record {
  encode = λ w level. w;
  write_encoded = λ g s buf. (g, record { shared = s; woken = []; result = done 0 });
  flush_encoded = λ g s. (g, record { shared = s; woken = []; result = done tt });
  drop_encoded = λ g s. (s, []);
  get_mut = λ g. g;
}

abbrev request : Request
request = record { method = get; path = codes "/a.txt"; headers = two_ranges }

abbrev node : Node Bytes Bool
node = record { file = codes "a.txt"; meta = false; auto_gzip = true; is_gzipped = false }
