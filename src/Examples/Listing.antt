-- ===== src/Examples/Listing.antt =====
-- examples/serve_dir.rs: the page that lists a directory.
use http_serve.Base.{
  ℕ, zero, suc, Bool, true, false, ◌&&◌, Option, none, some, List, [], ◌∷◌, if◌then◌else◌, Bytes,
  codes, bytes_eq, Result, ok, err, length, drop,
}
use http_serve.Std.Str.{bytes_le}
use http_serve.Http.{HttpCrates, HeaderMap, content_type, status_ok}
use http_serve.Io.{IoError, Attempt, finished, panics, other}
use http_serve.Stream.{chunker}
use http_serve.Chunker.{Shared, Done, done, broken_pipe, panicked}
use http_serve.Gzip.{Encoder, Inner, write_body, drop_inner}
use http_serve.Serving.{Response}

-- What the program uses of the crates `nix`, `htmlescape` and `mime_guess`, and the sort of `std`, which
-- is told whether an element may stand in front of another. `entries` are those of an
-- opened directory, `file_type` is whether an entry is known to be a directory or not, and `fstatat`
-- gives its mode, of which `from_bits` makes flags.
pub record DirCrates (F Ent : Type 0) : Type 0 where
  pub entries : F → Option (List Ent)
  pub file_name : Ent → Bytes
  pub name_to_str : Bytes → Option Bytes
  pub file_type : Ent → Option Bool
  pub fstatat : F → Bytes → Result ℕ ℕ
  pub from_bits : ℕ → Option ℕ
  pub contains_dir : ℕ → Bool
  pub encode_minimal : Bytes → Bytes
  pub first_raw : Bytes → Option Bytes
  pub sort_unstable_by : (Ent → Ent → Bool) → List Ent → List Ent

-- `?` in such a computation
infixl 5 ◌>>>=◌
abbrev pub ◌>>>=◌ :
    {A B : Type 0}
    → Attempt (Result A IoError)
    → (A → Attempt (Result B IoError))
    → Attempt (Result B IoError)
finished (ok a) >>>= k = k a
finished (err e) >>>= k = finished (err e)
panics >>>= k = panics

-- `Ok(…)` of such a computation
abbrev pub answer : {A : Type 0} → Attempt A → Attempt (Result A IoError)
answer (finished a) = finished (ok a)
answer panics = panics

module _ {F Ent : Type 0} (dir_crates : DirCrates F Ent) where
  open dir_crates use {file_name, file_type, fstatat, from_bits, contains_dir, sort_unstable_by}

  abbrev pub on_mode : Option ℕ → Attempt (Result Bool ℕ)
  on_mode none = panics
  on_mode (some mode) = finished (ok (contains_dir mode))

  abbrev pub on_stat : Result ℕ ℕ → Attempt (Result Bool ℕ)
  on_stat (err e) = finished (err e)
  on_stat (ok st_mode) = on_mode (from_bits st_mode)

  abbrev pub is_dir_at : Option Bool → F → Ent → Attempt (Result Bool ℕ)
  is_dir_at (some t) dir ent = finished (ok t)
  is_dir_at none dir ent = on_stat (fstatat dir (file_name ent))

  abbrev pub is_dir : F → Ent → Attempt (Result Bool ℕ)
  is_dir dir ent = is_dir_at (file_type ent) dir ent

  -- `is_dir(…).unwrap()`
  abbrev pub unwrapped : Attempt (Result Bool ℕ) → Attempt (Result Bool IoError)
  unwrapped (finished (ok b)) = finished (ok b)
  unwrapped (finished (err e)) = panics
  unwrapped panics = panics

  -- `ents.sort_unstable_by(|a, b| a.file_name().cmp(b.file_name()))`
  abbrev pub sorted : List Ent → List Ent
  sorted es = sort_unstable_by (λ a b. bytes_le (file_name a) (file_name b)) es

module _ {E G : Type 0} (encoder : Encoder E G) (reserve : ℕ → ℕ) where
  abbrev pub OpenBody : Type 0
  OpenBody = Inner G × Shared E

  abbrev pub on_written :
      Done ℕ
      → OpenBody
      → Bytes
      → (OpenBody → Bytes → Attempt (Result OpenBody IoError))
      → Attempt (Result OpenBody IoError)
  on_written (done zero) w buf k = finished (err (other (codes "failed to write whole buffer")))
  on_written (done (suc n)) w buf k = k w (drop (suc n) buf)
  on_written broken_pipe w buf k = finished (err (other (codes "receiver was dropped")))
  on_written panicked w buf k = panics

  -- `Write::write_all`, with fuel for its writes; each takes a byte at least.
  unfoldable pub write_all : ℕ → OpenBody → Bytes → Attempt (Result OpenBody IoError)
  unfolding write_body
  write_all fuel w [] = finished (ok w)
  write_all zero w (c ∷ buf) = finished (ok w)
  write_all (suc fuel) (inner, shared) (c ∷ buf) =
      let (next, e) = write_body encoder reserve inner shared (c ∷ buf) in
      on_written e.result (next, e.shared) (c ∷ buf) (write_all fuel)

  -- One `write!` behind the other.
  unfoldable pub write_texts : List Bytes → OpenBody → Attempt (Result OpenBody IoError)
  unfolding write_all
  write_texts [] w = finished (ok w)
  write_texts (t ∷ ts) w = write_all (length t) w t >>>= write_texts ts

  module _ {F Ent : Type 0} (dir_crates : DirCrates F Ent) (path : Bytes) (dir : F) where
    open dir_crates use {entries, file_name, name_to_str, encode_minimal}

    abbrev pub slash_if : Bool → List Bytes → List Bytes
    slash_if true ts = codes "/" ∷ ts
    slash_if false ts = ts

    -- behind `<a href="` and the name
    abbrev pub rest_texts : Bytes → Bool → List Bytes
    rest_texts p d = slash_if d (codes "\">" ∷ encode_minimal p ∷ slash_if d (codes "</a>\n" ∷ []))

    abbrev pub on_name :
        Option Bytes
        → Ent
        → (OpenBody → Attempt (Result OpenBody IoError))
        → OpenBody
        → Attempt (Result OpenBody IoError)
    on_name none ent k w = k w
    on_name (some p) ent k w =
        if bytes_eq p (codes ".")
        then k w
        else if bytes_eq p (codes "..") && bytes_eq path (codes "/")
        then k w
        else write_texts (codes "<li><a href=\"" ∷ encode_minimal p ∷ []) w >>>= λ w1.
            unwrapped dir_crates (is_dir dir_crates dir ent) >>>= λ d.
            write_texts (rest_texts p d) w1 >>>= k

    -- the loop over the entries
    unfoldable pub each_entry : List Ent → OpenBody → Attempt (Result OpenBody IoError)
    unfolding write_texts
    each_entry [] w = finished (ok w)
    each_entry (ent ∷ es) w = on_name (name_to_str (file_name ent)) ent (each_entry es) w

    abbrev pub list_entries : Option (List Ent) → OpenBody → Attempt (Result OpenBody IoError)
    list_entries none w = panics
    list_entries (some es) w =
        write_texts (codes "<!DOCTYPE html>\n<title>directory listing</title>\n<ul>\n" ∷ []) w
        >>>= λ w1.
            each_entry (sorted dir_crates es) w1 >>>= λ w2. write_texts (codes "</ul>\n" ∷ []) w2

  -- The response to a directory, whose body is what was written and flushed when the writer is dropped.
  abbrev pub listed : {D S : Type 0} → HttpCrates → HeaderMap → Shared E → Response D E S
  listed crates headers shared = record {
    parts = record {
      status = status_ok;
      headers = crates.insert content_type (codes "text/html") headers;
    };
    body = chunker shared;
  }

  abbrev pub on_listed :
      {D S : Type 0}
      → HttpCrates
      → HeaderMap
      → Attempt (Result OpenBody IoError)
      → Attempt (Result (Response D E S) IoError)
  on_listed crates headers panics = panics
  on_listed crates headers (finished (err e)) = finished (err e)
  on_listed crates headers (finished (ok (inner, shared))) =
      finished (ok (listed crates headers (drop_inner encoder inner shared).0))
