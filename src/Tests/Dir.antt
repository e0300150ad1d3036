-- ===== src/Tests/Dir.antt =====
-- src/dir.rs
use http_serve.Base.{
  ◌≡◌, ◌≢◌, ◌↔◌, refl, Bool, true, false, ◌&&◌, [], ◌∷◌, ◌++◌, Bytes, codes, bytes_eq, ok, err, All,
  if◌then◌else◌, not, ℕ, sym, ap, ◌∙◌, ◌==◌, Result, length,
}
use http_serve.Std.Str.{split}
use http_serve.Std.Str.Laws.{Lacks}
use http_serve.Tests.Serving.{crates}
use http_serve.Tests.Negotiation.{accepting}
use http_serve.Tests.Http.{ascii_to_str}
use http_serve.Negotiation.{should_gzip}
use http_serve.Io.{IoError, not_found, invalid_input, os_error, Files}
use http_serve.Dir.{builder, open_dir, for_path, slash, starts_absolute, validate_path, Node, get}
use http_serve.Dir.CTexts.{SameOn, Opens, get-CStr, for_path-Opens}
use http_serve.Dir.Paths.{validate_path_iff}
use http_serve.Dir.Opened.{Opened, get-Opened}

test_validate_path :
    (validate_path (codes "a/b..") ≡ ok tt)
    × (validate_path (codes "..") ≡ err (codes "path contains .. segment"))
    × (validate_path (codes "foo/..") ≡ err (codes "path contains .. segment"))
    × (validate_path (codes "/etc") ≡ err (codes "path is absolute"))
    × (validate_path (0 ∷ []) ≡ err (codes "path contains NUL byte"))
unfolding validate_path
test_validate_path = (refl, refl, refl, refl, refl)

validate_path_iff_example : (validate_path (codes "a/..") ≡ ok tt) ↔ (
    Lacks 0 (codes "a/..")
    × (starts_absolute (codes "a/..") ≡ false)
    × All (λ s. s ≢ codes "..") (split slash (codes "a/..")))
validate_path_iff_example = validate_path_iff (codes "a/..")

-- One file, with its compressed form beside it. A file is its name.
abbrev files : Files Bytes Bool
files = record {
  open_file = λ name.
      if bytes_eq name (codes "a.gz" ++ 0 ∷ [])
      then ok (codes "a.gz")
      else if bytes_eq name (codes "a" ++ 0 ∷ [])
      then ok (codes "a")
      else err not_found;
  metadata = λ f. ok false;
  is_dir = λ m. m;
  is_file = λ m. not m;
  ino = λ m. 9;
  len = λ m. 3;
  modified = λ m. ok (http_serve.Io.since_epoch 1500000000);
  pread = λ f n offset. ok [];
}

abbrev gzipped : Node Bytes Bool
gzipped = record { file = codes "a.gz"; meta = false; auto_gzip = true; is_gzipped = true }

get-Opened_example :
    Lacks 0 (codes "a")
    × (starts_absolute (codes "a") ≡ false)
    × All (λ s. s ≢ codes "..") (split slash (codes "a"))
    × Opened files true (true && should_gzip crates (accepting "gzip")) (codes "a") gzipped
unfolding get ascii_to_str bytes_eq
get-Opened_example = get-Opened files true crates (codes "a") (accepting "gzip") gzipped refl

abbrev ends_in_nul : Bytes → Bool
ends_in_nul [] = false
ends_in_nul (c ∷ []) = c == 0
ends_in_nul (c ∷ d ∷ s) = ends_in_nul (d ∷ s)

-- The same directory, but for texts that do not end in NUL.
abbrev open_terminated : Bytes → Result Bytes IoError
open_terminated name = if ends_in_nul name then files.open_file name else err (os_error 14)

ends_in_nul-append : (s : Bytes) → ends_in_nul (s ++ 0 ∷ []) ≡ true
ends_in_nul-append [] = refl
ends_in_nul-append (c ∷ []) = refl
ends_in_nul-append (c ∷ d ∷ s) = ends_in_nul-append (d ∷ s)

open_terminated-SameOn : SameOn files.open_file open_terminated
open_terminated-SameOn s (text, clean, ends) =
    let terminated : ends_in_nul s ≡ true = ap ends_in_nul ends ∙ ends_in_nul-append text in
    ap (λ b. if b then files.open_file s else err (os_error 14)) (sym terminated)

get-CStr_example :
    get files true crates (codes "a") (accepting "gzip")
    ≡ get (record files { open_file = open_terminated }) true crates (codes "a") (accepting "gzip")
get-CStr_example =
    get-CStr files open_terminated open_terminated-SameOn true crates (codes "a") (accepting "gzip")

abbrev open_directory : Bytes → Result ℕ IoError
open_directory buf = ok (length buf)

for_path-Opens_example : Opens open_directory 8 (codes "dir") builder
for_path-Opens_example = for_path-Opens open_directory 8 (codes "dir") builder

test_for_path :
    (for_path open_directory 8 (codes "dir") builder ≡ ok (record { auto_gzip = true; fd = 8 }))
    × (for_path open_directory 8 (codes "longpath") builder
        ≡ err (invalid_input (codes "path is too long")))
unfolding open_dir
test_for_path = (refl, refl)
