-- ===== src/Examples/Page.antt =====
-- The page that lists a directory, byte by byte, as a client gets it without compression.
use http_serve.Base.{
  ℕ, ◌≡◌, Bool, true, false, not, ◌&&◌, Option, none, some, List, [], ◌∷◌, ◌++◌, if◌then◌else◌,
  Bytes, codes, bytes_eq, concat, append-nil, append_assoc, Result, ok, All, sym, ap, ◌∙◌, subst,
}
use http_serve.Io.{IoError, Attempt, finished}
use http_serve.Gzip.{Encoder}
use http_serve.Examples.Listing.{
  DirCrates, OpenBody, ◌>>>=◌, is_dir, unwrapped, sorted, write_texts, rest_texts, on_name,
  each_entry, list_entries,
}
use http_serve.Examples.Written.{Writes, nothing-Writes, and_then-Writes, write_texts-Writes}
use http_serve.Gzip.Sink.{Sink}

abbrev pub page_head : Bytes
page_head = codes "<!DOCTYPE html>\n<title>directory listing</title>\n<ul>\n"

abbrev pub page_foot : Bytes
page_foot = codes "</ul>\n"

-- The page, apart from how it is written.
module _ {F Ent : Type 0} (dir_crates : DirCrates F Ent) (path : Bytes) (kind : Ent → Bool) where
  open dir_crates use {file_name, name_to_str, encode_minimal}

  abbrev slash : Bool → Bytes
  slash true = codes "/"
  slash false = []

  abbrev link : Bytes → Bool → Bytes
  link p d =
      codes "<li><a href=\""
      ++ encode_minimal p
      ++ slash d
      ++ codes "\">"
      ++ encode_minimal p
      ++ slash d
      ++ codes "</a>\n"

  -- Neither the directory itself nor what lies above the base directory has a line.
  abbrev pub shown : Bytes → Bool
  shown p =
      not (bytes_eq p (codes ".")) && not (bytes_eq p (codes "..") && bytes_eq path (codes "/"))

  abbrev pub line : Option Bytes → Bool → Bytes
  line none d = []
  line (some p) d = if shown p then link p d else []

  abbrev pub lines : List Ent → Bytes
  lines [] = []
  lines (e ∷ es) = line (name_to_str (file_name e)) (kind e) ++ lines es

  abbrev pub page : List Ent → Bytes
  page es = page_head ++ (lines (sorted dir_crates es) ++ page_foot)

module _ {E G F Ent : Type 0} (encoder : Encoder E G) (reserve : ℕ → ℕ)
    (Reads : Bytes → Bytes → Type 0) (sink : Sink encoder reserve Reads)
    (dir_crates : DirCrates F Ent) (path : Bytes) (dir : F) (kind : Ent → Bool) where
  open dir_crates use {file_name, name_to_str, encode_minimal}

  link-texts :
      (p : Bytes) (d : Bool)
      → concat (codes "<li><a href=\"" ∷ encode_minimal p ∷ [])
          ++ concat (rest_texts encoder reserve dir_crates path dir p d)
        ≡ link dir_crates path kind p d
  link-texts p true = simp (append_assoc, append-nil)
  link-texts p false = simp (append_assoc, append-nil)

  -- The kind of the entry can be told.
  abbrev pub Known : Ent → Type 0
  Known e = is_dir dir_crates dir e ≡ finished (ok (kind e))

  abbrev Step : Type 0
  Step = OpenBody encoder reserve → Attempt (Result (OpenBody encoder reserve) IoError)

  abbrev first_texts : Bytes → List Bytes
  first_texts p = codes "<li><a href=\"" ∷ encode_minimal p ∷ []

  abbrev last_texts : Bytes → Bool → List Bytes
  last_texts = rest_texts encoder reserve dir_crates path dir

  -- the second half of an entry that has a line, once its kind is told
  abbrev with_kind : Bytes → Attempt (Result Bool ℕ) → Step → Step
  with_kind p told k w1 =
      unwrapped dir_crates told >>>= λ d. write_texts encoder reserve (last_texts p d) w1 >>>= k

  abbrev with_link : Bytes → Ent → Step → Step
  with_link p e k w =
      write_texts encoder reserve (first_texts p) w >>>= with_kind p (is_dir dir_crates dir e) k

  link-Writes :
      (p : Bytes) (e : Ent) (rest : Bytes) (k : Step)
      → Known e
      → Writes encoder reserve Reads sink rest k
      → Writes encoder reserve Reads sink
          (link dir_crates path kind p (kind e) ++ rest)
          (with_link p e k)
  link-Writes p e rest k known behind =
      subst (λ x. Writes encoder reserve Reads sink x (with_link p e k))
        (sym (append_assoc (concat (first_texts p)) (concat (last_texts p (kind e))) rest)
          ∙ ap (λ x. x ++ rest) (link-texts p (kind e)))
        (and_then-Writes encoder reserve Reads sink (concat (first_texts p))
          (concat (last_texts p (kind e)) ++ rest) (write_texts encoder reserve (first_texts p))
          (with_kind p (is_dir dir_crates dir e) k)
          (write_texts-Writes encoder reserve Reads sink (first_texts p))
          (subst
            (λ told.
              Writes encoder reserve Reads sink (concat (last_texts p (kind e)) ++ rest)
                (with_kind p told k))
            (sym known)
            (and_then-Writes encoder reserve Reads sink (concat (last_texts p (kind e))) rest
              (write_texts encoder reserve (last_texts p (kind e))) k
              (write_texts-Writes encoder reserve Reads sink (last_texts p (kind e))) behind)))

  on_name-Writes :
      (name : Option Bytes) (e : Ent) (rest : Bytes) (k : Step)
      → Known e
      → Writes encoder reserve Reads sink rest k
      → Writes encoder reserve Reads sink
          (line dir_crates path kind name (kind e) ++ rest)
          (on_name encoder reserve dir_crates path dir name e k)
  on_name-Writes none e rest k known behind = behind
  on_name-Writes (some p) e rest k known behind =
      go (bytes_eq p (codes ".")) (bytes_eq p (codes "..") && bytes_eq path (codes "/"))
    where
      go :
          (here above : Bool)
          → Writes encoder reserve Reads sink
              ((if not here && not above then link dir_crates path kind p (kind e) else []) ++ rest)
              (λ w. if here then k w else if above then k w else with_link p e k w)
      go true above = behind
      go false true = behind
      go false false = link-Writes p e rest k known behind

  each_entry-Writes :
      (es : List Ent)
      → All Known es
      → Writes encoder reserve Reads sink
          (lines dir_crates path kind es)
          (each_entry encoder reserve dir_crates path dir es)
  unfolding each_entry
  each_entry-Writes [] known = nothing-Writes encoder reserve Reads sink
  each_entry-Writes (e ∷ es) known =
      on_name-Writes (name_to_str (file_name e)) e (lines dir_crates path kind es)
        (each_entry encoder reserve dir_crates path dir es) known.0 (each_entry-Writes es known.1)

  text-Writes :
      (t : Bytes) → Writes encoder reserve Reads sink t (write_texts encoder reserve (t ∷ []))
  text-Writes t =
      subst (λ x. Writes encoder reserve Reads sink x (write_texts encoder reserve (t ∷ [])))
        (append-nil t) (write_texts-Writes encoder reserve Reads sink (t ∷ []))

  pub list_entries-Writes :
      (es : List Ent)
      → All Known (sorted dir_crates es)
      → Writes encoder reserve Reads sink
          (page dir_crates path kind es)
          (list_entries encoder reserve dir_crates path dir (some es))
  list_entries-Writes es known =
      let entries = each_entry encoder reserve dir_crates path dir (sorted dir_crates es) in
      let foot = write_texts encoder reserve (page_foot ∷ []) in
      and_then-Writes encoder reserve Reads sink page_head
        (lines dir_crates path kind (sorted dir_crates es) ++ page_foot)
        (write_texts encoder reserve (page_head ∷ [])) (λ w. entries w >>>= foot)
        (text-Writes page_head)
        (and_then-Writes encoder reserve Reads sink
          (lines dir_crates path kind (sorted dir_crates es)) page_foot entries foot
          (each_entry-Writes (sorted dir_crates es) known) (text-Writes page_foot))
