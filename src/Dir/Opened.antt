-- ===== src/Dir/Opened.antt =====
-- Which file an opened node stands for.
use http_serve.Base.{
  ◌≡◌, ◌≢◌, refl, Bool, true, false, ◌&&◌, [], ◌∷◌, ◌++◌, Bytes, codes, Result, ok, err, ◌>>=◌,
  bind-eq-ok, All,
}
use http_serve.Std.Str.{split}
use http_serve.Std.Str.Laws.{Lacks}
use http_serve.Http.{RequestHeaders, HttpCrates}
use http_serve.Negotiation.{should_gzip}
use http_serve.Io.{IoError, not_found, invalid_input, unexpected_eof, other, os_error, Files}
use http_serve.Dir.{
  slash, starts_absolute, validate_path, Files, Node, open_plain, unless_dir, on_gzipped, open_node,
  on_valid, get,
}
use http_serve.Dir.Paths.{validate_path_iff}

module _ {F M : Type 0} (files : Files F M) (auto_gzip : Bool) where
  open files use {open_file, metadata, is_dir}

  -- The node is the file of the given path, or, if gzip is wanted, that with `.gz` behind it, which
  -- is no directory.
  abbrev pub Opened : Bool → Bytes → Node F M → Type 0
  Opened gzip path node =
      (metadata node.file ≡ ok node.meta)
      × (node.is_gzipped ≡ false → open_file (path ++ 0 ∷ []) ≡ ok node.file)
      × (node.is_gzipped ≡ true
          → (gzip ≡ true)
            × (open_file (path ++ (codes ".gz" ++ 0 ∷ [])) ≡ ok node.file)
            × (is_dir node.meta ≡ false))

  open_plain-Opened :
      (gzip : Bool) (path : Bytes) (node : Node F M)
      → open_plain files auto_gzip path ≡ ok node
      → Opened gzip path node
  unfolding open_plain
  open_plain-Opened gzip path node e =
      let (f, opened, e') =
        bind-eq-ok (open_file (path ++ 0 ∷ []))
          (λ f. metadata f >>= λ m.
            ok (record { file = f; meta = m; auto_gzip = auto_gzip; is_gzipped = false }))
          e in
      let (m, stat, e'') =
        bind-eq-ok (metadata f)
          (λ m. ok (record { file = f; meta = m; auto_gzip = auto_gzip; is_gzipped = false })) e' in
      (cc, (λ plain. cc), (λ gzipped. cc))

  unless_dir-Opened :
      (f : F) (m : M) (b : Bool) (path : Bytes) (node : Node F M)
      → open_file (path ++ (codes ".gz" ++ 0 ∷ [])) ≡ ok f
      → metadata f ≡ ok m
      → is_dir m ≡ b
      → unless_dir files auto_gzip f m b (open_plain files auto_gzip path) ≡ ok node
      → Opened true path node
  unless_dir-Opened f m true path node opened stat dir e = open_plain-Opened true path node e
  unless_dir-Opened f m false path node opened stat dir e =
      (cc, (λ plain. cc), (λ gzipped. (refl, cc, cc)))

  on_gzipped-Opened :
      (o : Result F IoError) (path : Bytes) (node : Node F M)
      → open_file (path ++ (codes ".gz" ++ 0 ∷ [])) ≡ o
      → on_gzipped files auto_gzip o (open_plain files auto_gzip path) ≡ ok node
      → Opened true path node
  on_gzipped-Opened (err not_found) path node opened e = open_plain-Opened true path node e
  on_gzipped-Opened (err (invalid_input s)) path node opened e = cc
  on_gzipped-Opened (err (unexpected_eof n)) path node opened e = cc
  on_gzipped-Opened (err (other s)) path node opened e = cc
  on_gzipped-Opened (err (os_error n)) path node opened e = cc
  on_gzipped-Opened (ok f) path node opened e =
      let (m, stat, e') =
        bind-eq-ok (metadata f)
          (λ m. unless_dir files auto_gzip f m (is_dir m) (open_plain files auto_gzip path)) e in
      unless_dir-Opened f m (is_dir m) path node opened stat refl e'

  open_node-Opened :
      (gzip : Bool) (path : Bytes) (node : Node F M)
      → open_node files auto_gzip gzip path ≡ ok node
      → Opened gzip path node
  open_node-Opened false path node e = open_plain-Opened false path node e
  open_node-Opened true path node e = on_gzipped-Opened _ path node refl e

  on_valid-ok :
      (v : Result (Unit {0}) Bytes) (gzip : Bool) (path : Bytes) (node : Node F M)
      → on_valid files auto_gzip v gzip path ≡ ok node
      → (v ≡ ok tt) × Opened gzip path node
  on_valid-ok (err s) gzip path node e = cc
  on_valid-ok (ok tt) gzip path node e = (refl, open_node-Opened gzip path node e)

  -- A node that `get` returns is on a path without NUL bytes and `..` segments that is not
  -- absolute. Its file is the one of that path, or, only if gzip is switched on and preferred by the
  -- request, the one with `.gz` behind the path, which then is no directory.
  pub get-Opened :
      (crates : HttpCrates) (path : Bytes) (req_hdrs : RequestHeaders) (node : Node F M)
      → get files auto_gzip crates path req_hdrs ≡ ok node
      → Lacks 0 path
        × (starts_absolute path ≡ false)
        × All (λ s. s ≢ codes "..") (split slash path)
        × Opened (auto_gzip && should_gzip crates req_hdrs) path node
  unfolding get
  get-Opened crates path req_hdrs node e =
      let (valid, opened) = on_valid-ok (validate_path path) _ path node e in
      let (clean, relative, inside) = (validate_path_iff path).0 valid in
      (clean, relative, inside, opened)
