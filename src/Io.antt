-- ===== src/Io.antt =====
-- What the program uses of the operating system and of `std::io`, `std::fs`: errors, and calls that
-- are parameters.
use http_serve.Base.{ℕ, Bool, Bytes, Result}
use http_serve.Http.{SystemTime}

-- `io::Error`, by the kinds that the code tells apart or makes itself; `os_error` is any other
-- error of a system call.
pub data IoError : Type 0 where
  not_found : IoError
  invalid_input : Bytes → IoError
  unexpected_eof : ℕ → IoError
  other : Bytes → IoError
  os_error : ℕ → IoError

-- A computation that may panic.
pub data Attempt (A : Type 0) : Type 0 where
  finished : A → Attempt A
  panics : Attempt A

-- The time of a file, which may lie before the Unix epoch: by how many nanoseconds.
pub data Timestamp : Type 0 where
  before_epoch : ℕ → Timestamp
  since_epoch : SystemTime → Timestamp

-- `pread` of a file, of up to so many bytes from an offset on.
abbrev pub Pread : Type 0
Pread = ℕ → ℕ → Result Bytes IoError

-- The calls on a base directory, on files and on their metadata. `open_file` is `openat`, on a text
-- that ends in NUL; `metadata` is `fstat`; `modified` fails where there is no such time.
pub record Files (F M : Type 0) : Type 0 where
  pub open_file : Bytes → Result F IoError
  pub metadata : F → Result M IoError
  pub is_dir : M → Bool
  pub is_file : M → Bool
  pub ino : M → ℕ
  pub len : M → ℕ
  pub modified : M → Result Timestamp IoError
  pub pread : F → Pread
