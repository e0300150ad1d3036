-- ===== src/Dir/CTexts.antt =====
-- The texts that the code hands to the operating system as C strings.
use http_serve.Base.{
  ℕ, zero, suc, ◌-◌, ◌<◌, ◌≤◌, ◌≡◌, ◌≢◌, refl, sym, ap, ◌∙◌, ◌&&◌, Bool, true, false, Bool-cases,
  inl, inr, [], ◌∷◌, ◌++◌, append_assoc, arith, Bytes, codes, Result, ok, err, ◌>>=◌, All-append,
  length, length-append, leb, ◌⊎◌, ◌+◌,
}
use http_serve.Std.Str.{position}
use http_serve.Std.Str.Laws.{Lacks}
use http_serve.Http.{RequestHeaders, HttpCrates}
use http_serve.Io.{IoError, not_found, invalid_input, unexpected_eof, other, os_error, Files}
use http_serve.Negotiation.{should_gzip}
use http_serve.Dir.{
  FsDirBuilder, is_some, zeros, path_buf, open_dir, for_path, validate_path, Node, open_plain,
  on_gzipped, open_node, on_valid, get,
}
use http_serve.Dir.Paths.{validate_path_iff, position-Lacks}

-- A text, with no NUL but the one that ends it.
abbrev pub IsCStr : Bytes → Type 0
IsCStr s = (text : Bytes) × Lacks 0 text × (s ≡ text ++ 0 ∷ [])

-- Two directories that open the same files by C strings.
abbrev pub SameOn : {F : Type 0} → (Bytes → Result F IoError) → (Bytes → Result F IoError) → Type 0
SameOn f g = (s : Bytes) → IsCStr s → f s ≡ g s

module _ {F M : Type 0} (files : Files F M) (open_file : Bytes → Result F IoError)
    (same : SameOn files.open_file open_file) (auto_gzip : Bool) where
  abbrev files' : Files F M
  files' = record files { open_file = open_file }

  open_plain-CStr :
      (path : Bytes)
      → Lacks 0 path
      → open_plain files auto_gzip path ≡ open_plain files' auto_gzip path
  unfolding open_plain
  open_plain-CStr path clean =
      ap
        (λ o. o >>= λ f. files.metadata f >>= λ m.
          ok (record { file = f; meta = m; auto_gzip = auto_gzip; is_gzipped = false }))
        (same (path ++ 0 ∷ []) (path, clean, refl))

  gzipped-IsCStr : (path : Bytes) → Lacks 0 path → IsCStr (path ++ (codes ".gz" ++ 0 ∷ []))
  gzipped-IsCStr path clean = (
    path ++ codes ".gz",
    All-append (λ c. c ≢ 0) path (codes ".gz") clean
        ((λ e. omega arith), ((λ e. omega arith), ((λ e. omega arith), tt))),
    sym (append_assoc path (codes ".gz") (0 ∷ [])),
  )

  open_node-CStr :
      (gzip : Bool) (path : Bytes)
      → Lacks 0 path
      → open_node files auto_gzip gzip path ≡ open_node files' auto_gzip gzip path
  open_node-CStr false path clean = open_plain-CStr path clean
  open_node-CStr true path clean =
      ap (λ o. on_gzipped files auto_gzip o (open_plain files auto_gzip path))
        (same (path ++ (codes ".gz" ++ 0 ∷ [])) (gzipped-IsCStr path clean))
      ∙ ap (on_gzipped files auto_gzip (open_file (path ++ (codes ".gz" ++ 0 ∷ []))))
          (open_plain-CStr path clean)
      ∙ same_gzipped (open_file (path ++ (codes ".gz" ++ 0 ∷ [])))
          (open_plain files' auto_gzip path)
    where
      same_gzipped :
          (o : Result F IoError) (rest : Result (Node F M) IoError)
          → on_gzipped files auto_gzip o rest ≡ on_gzipped files' auto_gzip o rest
      same_gzipped (ok f) rest = refl
      same_gzipped (err not_found) rest = refl
      same_gzipped (err (invalid_input e)) rest = refl
      same_gzipped (err (unexpected_eof n)) rest = refl
      same_gzipped (err (other e)) rest = refl
      same_gzipped (err (os_error n)) rest = refl

  -- Every text that `get` hands to `openat`, whatever the path, is a C string: what `openat` would
  -- do on any other text makes no difference to the node or the error.
  pub get-CStr :
      (crates : HttpCrates) (path : Bytes) (req_hdrs : RequestHeaders)
      → get files auto_gzip crates path req_hdrs ≡ get files' auto_gzip crates path req_hdrs
  unfolding get
  get-CStr crates path req_hdrs = go (validate_path path) refl
    where
      gzip : Bool
      gzip = auto_gzip && should_gzip crates req_hdrs

      go :
          (v : Result (Unit {0}) Bytes)
          → validate_path path ≡ v
          → on_valid files auto_gzip v gzip path ≡ on_valid files' auto_gzip v gzip path
      go (err e) valid = refl
      go (ok tt) valid = open_node-CStr gzip path ((validate_path_iff path).0 valid).0

-- A buffer that starts with a text and a NUL.
abbrev pub IsCBuf : ℕ → Bytes → Bytes → Type 0
IsCBuf size path buf =
    Lacks 0 path × (rest : Bytes) × (buf ≡ path ++ 0 ∷ rest) × (length buf ≡ size)

module _ {Fd : Type 0} (open_directory : Bytes → Result Fd IoError) (path_max : ℕ) where
  length-zeros : (n : ℕ) → length (zeros n) ≡ n
  length-zeros zero = refl
  length-zeros (suc n) = ap suc (length-zeros n)

  -- The buffer is filled to its end, and there is a NUL behind the path.
  path_buf-IsCBuf :
      (path : Bytes)
      → Lacks 0 path
      → length path < path_max
      → IsCBuf path_max path (path_buf open_directory path_max path)
  path_buf-IsCBuf path clean short = go (path_max - length path) (omega arith)
    where
      go : (n : ℕ) → length path + n ≡ path_max × 0 < n → IsCBuf path_max path (path ++ zeros n)
      go zero (_, more) = absurd (omega arith)
      go (suc n) (total, more) = (
        clean,
        zeros n,
        refl,
        omega (arith, length-append {0} path (0 ∷ zeros n), length-zeros n),
      )

  abbrev pub Opens : Bytes → FsDirBuilder → Type 0
  Opens path b =
      (¬ Lacks 0 path
        × (for_path open_directory path_max path b
            ≡ err (invalid_input (codes "path contains NUL byte"))))
      ⊎ ((Lacks 0 path
            × (path_max ≤ length path)
            × (for_path open_directory path_max path b
                ≡ err (invalid_input (codes "path is too long"))))
          ⊎ (IsCBuf path_max path (path_buf open_directory path_max path)
              × (for_path open_directory path_max path b ≡ (
                  open_directory (path_buf open_directory path_max path) >>= λ fd.
                  ok (record { auto_gzip = b.auto_gzip; fd = fd })))))

  -- `for_path` refuses a path with a NUL byte and one of `PATH_MAX` bytes or more. Any other one it
  -- hands to `open` in a buffer of just `PATH_MAX` bytes in which a NUL stands behind the path, and
  -- the result is the directory that this gives, with the builder's choice of gzip, or its error.
  pub for_path-Opens : (path : Bytes) (b : FsDirBuilder) → Opens path b
  unfolding open_dir
  for_path-Opens path b =
      go (Bool-cases (is_some (position 0 path))) (Bool-cases (leb path_max (length path)))
    where
      go :
          (is_some (position 0 path) ≡ true) ⊎ (is_some (position 0 path) ≡ false)
          → (leb path_max (length path) ≡ true) ⊎ (leb path_max (length path) ≡ false)
          → Opens path b
      go (inl nul) _ =
          inl ((λ clean. let free = (position-Lacks 0 path).1 clean in cc), rw nul refl)
      go (inr free) (inl long) =
          inr (inl ((position-Lacks 0 path).0 free, ground arith, rw (free, long) refl))
      go (inr free) (inr short) = inr (
          inr (
            path_buf-IsCBuf path ((position-Lacks 0 path).0 free) (ground arith),
            rw (free, short) refl,
          ))
