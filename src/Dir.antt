-- ===== src/Dir.antt =====
-- src/dir.rs: opening a path below a base directory.
pub mod Paths
pub mod Opened
pub mod CTexts
use http_serve.Base.{
  ℕ, zero, suc, ◌+◌, ◌-◌, leb, Bool, true, false, ◌&&◌, Option, none, some, [], ◌∷◌, ◌++◌, ◌==◌,
  if◌then◌else◌, Bytes, codes, bytes_eq, Result, ok, err, ◌>>=◌, length, take, drop,
}
use http_serve.Std.Str.{position}
use http_serve.Http.{RequestHeaders, HttpCrates, HeaderName, HeaderMap, content_encoding, vary}
use http_serve.Io.{IoError, not_found, invalid_input, unexpected_eof, other, os_error, Files}
use http_serve.File.{ChunkedReadFile, new_with_metadata}
use http_serve.Negotiation.{should_gzip}

abbrev pub slash : ℕ
slash = b'/'

-- What the segment up to the next slash makes of the path: `seg == b".."`.
abbrev pub check_segment : Bool → Result (Unit {0}) Bytes → Result (Unit {0}) Bytes
check_segment true rest = err (codes "path contains .. segment")
check_segment false rest = rest

-- One round of the loop; `next` is where the next slash is, and `k` is the rest of the loop.
abbrev pub check_at : Option ℕ → Bytes → (Bytes → Result (Unit {0}) Bytes) → Result (Unit {0}) Bytes
check_at none left k = check_segment (bytes_eq (take (length left) left) (codes "..")) (ok tt)
check_at (some n) left k =
    check_segment (bytes_eq (take n left) (codes "..")) (k (drop (n + 1) left))

-- The loop over the segments, with fuel for its rounds.
unfoldable pub check_segments : ℕ → Bytes → Result (Unit {0}) Bytes
unfolding position bytes_eq
check_segments zero left = ok tt
check_segments (suc fuel) left = check_at (position slash left) left (check_segments fuel)

abbrev pub starts_absolute : Bytes → Bool
starts_absolute [] = false
starts_absolute (c ∷ s) = c == slash

abbrev pub is_some : Option ℕ → Bool
is_some none = false
is_some (some n) = true

unfoldable pub validate_path : Bytes → Result (Unit {0}) Bytes
unfolding check_segments position
validate_path path =
    if is_some (position 0 path)
    then err (codes "path contains NUL byte")
    else if starts_absolute path
    then err (codes "path is absolute")
    else check_segments (length path + 1) path

pub record Node (F M : Type 0) : Type 0 where
  pub file : F
  pub meta : M
  pub auto_gzip : Bool
  pub is_gzipped : Bool

-- `Node::encoding`
abbrev pub encoding : {F M : Type 0} → Node F M → Option Bytes
encoding node = if node.is_gzipped then some (codes "gzip") else none

-- `FsDirBuilder`
pub record FsDirBuilder : Type 0 where
  pub auto_gzip : Bool

-- `FsDir::builder`, and the builder's `auto_gzip`
abbrev pub builder : FsDirBuilder
builder = record { auto_gzip = true }

abbrev pub with_auto_gzip : Bool → FsDirBuilder → FsDirBuilder
with_auto_gzip auto_gzip b = record { auto_gzip = auto_gzip }

-- `FsDir`, with the type of its descriptor
pub record FsDir (Fd : Type 0) : Type 0 where
  pub auto_gzip : Bool
  pub fd : Fd

abbrev pub zeros : ℕ → Bytes
zeros zero = []
zeros (suc n) = 0 ∷ zeros n

-- `libc::open` of a directory, on a buffer, and `libc::PATH_MAX`.
module _ {Fd : Type 0} (open_directory : Bytes → Result Fd IoError) (path_max : ℕ) where
  -- the buffer of `PATH_MAX` bytes, with the path copied to its front
  abbrev pub path_buf : Bytes → Bytes
  path_buf path = path ++ zeros (path_max - length path)

  -- `FsDir::open`
  unfoldable pub open_dir : Bytes → Bool → Result (FsDir Fd) IoError
  unfolding position
  open_dir path auto_gzip =
      if is_some (position 0 path)
      then err (invalid_input (codes "path contains NUL byte"))
      else if leb path_max (length path)
      then err (invalid_input (codes "path is too long"))
      else open_directory (path_buf path) >>= λ fd. ok (record { auto_gzip = auto_gzip; fd = fd })

  abbrev pub for_path : Bytes → FsDirBuilder → Result (FsDir Fd) IoError
  for_path path b = open_dir path b.auto_gzip

module _ {F M : Type 0} (files : Files F M) where
  -- `Node::into_file_entity`
  unfoldable pub into_file_entity : Node F M → HeaderMap → Result (ChunkedReadFile F) IoError
  unfolding new_with_metadata
  into_file_entity node headers = new_with_metadata files node.file node.meta headers

-- `Node::encoding_varies`
abbrev pub encoding_varies : {F M : Type 0} → Node F M → Bool
encoding_varies node = node.auto_gzip

module _ (crates : HttpCrates) where
  open crates use {insert}

  abbrev pub insert_encoding : Option Bytes → HeaderMap → HeaderMap
  insert_encoding none hdrs = hdrs
  insert_encoding (some e) hdrs = insert content_encoding e hdrs

  abbrev pub insert_vary : Bool → HeaderMap → HeaderMap
  insert_vary false hdrs = hdrs
  insert_vary true hdrs = insert vary (codes "accept-encoding") hdrs

  -- `Node::add_encoding_headers`
  abbrev pub add_encoding_headers : {F M : Type 0} → Node F M → HeaderMap → HeaderMap
  add_encoding_headers node hdrs = insert_vary node.auto_gzip (insert_encoding (encoding node) hdrs)

module _ {F M : Type 0} (files : Files F M) (auto_gzip : Bool) where
  open files use {open_file, metadata, is_dir}

  -- behind the attempt to find a `.gz` file
  unfoldable pub open_plain : Bytes → Result (Node F M) IoError
  open_plain path = open_file (path ++ 0 ∷ []) >>= λ f. metadata f >>= λ m.
      ok (record { file = f; meta = m; auto_gzip = auto_gzip; is_gzipped = false })

  abbrev pub unless_dir : F → M → Bool → Result (Node F M) IoError → Result (Node F M) IoError
  unless_dir f m true rest = rest
  unless_dir f m false rest =
      ok (record { file = f; meta = m; auto_gzip = auto_gzip; is_gzipped = true })

  -- what opening the `.gz` file gave; `rest` is what comes behind
  abbrev pub on_gzipped : Result F IoError → Result (Node F M) IoError → Result (Node F M) IoError
  on_gzipped (ok f) rest = metadata f >>= λ m. unless_dir f m (is_dir m) rest
  on_gzipped (err not_found) rest = rest
  on_gzipped (err (invalid_input e)) rest = err (invalid_input e)
  on_gzipped (err (unexpected_eof n)) rest = err (unexpected_eof n)
  on_gzipped (err (other e)) rest = err (other e)
  on_gzipped (err (os_error n)) rest = err (os_error n)

  abbrev pub open_node : Bool → Bytes → Result (Node F M) IoError
  open_node true path = on_gzipped (open_file (path ++ (codes ".gz" ++ 0 ∷ []))) (open_plain path)
  open_node false path = open_plain path

  abbrev pub on_valid : Result (Unit {0}) Bytes → Bool → Bytes → Result (Node F M) IoError
  on_valid (err e) gzip path = err (invalid_input e)
  on_valid (ok _) gzip path = open_node gzip path

  -- `FsDir::get`
  unfoldable pub get : HttpCrates → Bytes → RequestHeaders → Result (Node F M) IoError
  unfolding validate_path open_plain should_gzip
  get crates path req_hdrs =
      on_valid (validate_path path) (auto_gzip && should_gzip crates req_hdrs) path
