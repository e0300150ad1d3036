-- ===== src/Windows/Reads.antt =====
-- What `read_at` promises on Windows, and times from the Unix epoch on.
use http_serve.Base.{
  ℕ, ◌+◌, ◌*◌, ◌/◌, ◌%◌, ◌^◌, ◌≤◌, ◌<◌, min, ◌≡◌, refl, ap, ◌∙◌, true, false, arith, Bytes, Result,
  ok, err, length, take, drop, u64_max, ◌==◌, any, zero, suc, Bool, not, ◌&&◌, ◌||◌, if◌then◌else◌,
}
use http_serve.Io.{IoError, unexpected_eof}
use http_serve.Windows.{
  FileTime, WinApi, Run, returned, aborted, joined, dword_max, secs_to_unix_epoch,
  filetime_to_systemtime, on_read_file, read_at,
}

-- `FileExt::read_at`: "Reads at least 1, at most `chunk_size` bytes beginning at `offset`, or fails.
-- If there are no bytes at `offset`, returns an `UnexpectedEof` error."
abbrev pub ReadsAt : Bytes → ℕ → ℕ → Result Bytes IoError → Type 0
ReadsAt contents size offset (ok v) =
    (0 < length v) × (length v ≤ size) × (v ≡ take (length v) (drop offset contents))
ReadsAt contents size offset (err e) = length contents ≤ offset → e ≡ unexpected_eof offset

abbrev pub RunReadsAt : Bytes → ℕ → ℕ → Run (Result Bytes IoError) → Type 0
RunReadsAt contents size offset (returned o) = ReadsAt contents size offset o
RunReadsAt contents size offset aborted = ⊥

-- The documented behaviour of `ReadFile` on a file of fixed contents that is read synchronously:
-- the bytes at the offset, some of them, and `ERROR_HANDLE_EOF` from the end on.
pub record ReadsFile (contents : Bytes) (winapi : WinApi) : Type 0 where
  pub some_bytes :
      (n low high : ℕ) (v : Bytes)
      → 0 < n
      → winapi.read_file n low high ≡ ok v
      → (0 < length v) × (length v ≤ n) × (v ≡ take (length v) (drop (joined high low) contents))
  pub at_end :
      (n low high o : ℕ)
      → winapi.read_file n low high ≡ err o
      → length contents ≤ joined high low
      → o ≡ winapi.error_handle_eof
  pub synchronous :
      (n low high o : ℕ)
      → winapi.read_file n low high ≡ err o
      → (o == winapi.error_io_pending) ≡ false

module _ (contents : Bytes) (winapi : WinApi) (reads : ReadsFile contents winapi) where
  on_read_file-ReadsAt :
      (size offset low high : ℕ) (o : Result Bytes ℕ)
      → 0 < size
      → joined high low ≡ offset
      → winapi.read_file (min size dword_max) low high ≡ o
      → RunReadsAt contents size offset (on_read_file winapi offset o)
  on_read_file-ReadsAt size offset low high (ok v) any at given =
      let (more, small, text) =
        reads.some_bytes (min size dword_max) low high v (omega arith) given in
      (more, omega arith, text ∙ ap (λ k. take (length v) (drop k contents)) at)
  on_read_file-ReadsAt size offset low high (err o) any at given =
      let not_pending = reads.synchronous (min size dword_max) low high o given in
      rw not_pending (λ over.
        let eof = reads.at_end (min size dword_max) low high o given (omega arith) in
        let is_eof : (o == winapi.error_handle_eof) ≡ true = ground arith in rw is_eof refl)

  -- Where `ReadFile` does as documented, `read_at` never aborts: for any offset of 64 bits, split
  -- into two words, and any size but 0, it gives at least one and at most `size` bytes from the offset on,
  -- or an error, which is `UnexpectedEof` where there are no bytes.
  pub read_at-ReadsAt :
      (size offset : ℕ)
      → 0 < size
      → offset ≤ u64_max
      → RunReadsAt contents size offset (read_at winapi size offset)
  unfolding read_at
  read_at-ReadsAt size offset any fits =
      on_read_file-ReadsAt size offset (offset % 2 ^ 32) (offset / 2 ^ 32 % 2 ^ 32) _ any
        (omega arith) refl

abbrev divides : ℕ → ℕ → Bool
divides k n = n % k == 0

-- the days of a year of the Gregorian calendar
abbrev days_in_year : ℕ → ℕ
days_in_year y = if (divides 4 y && not (divides 100 y)) || divides 400 y then 366 else 365

-- the days of so many years from this one on
abbrev days_in_years : ℕ → ℕ → ℕ
days_in_years y zero = 0
days_in_years y (suc n) = days_in_year y + days_in_years (suc y) n

-- The seconds from the beginning of 1601, where a `FILETIME` counts from, to that of 1970.
abbrev pub secs_from_1601_to_1970 : ℕ
secs_from_1601_to_1970 = days_in_years 1601 369 * (24 * 60 * 60)

-- The `FILETIME` of a time so many nanoseconds from the beginning of 1970 on: the ticks of 100 ns
-- since the beginning of 1601, in two halves.
abbrev pub filetime_of : ℕ → FileTime
filetime_of ns =
    let ticks = ns / 100 + secs_from_1601_to_1970 * 10000000 in
    record { low_date_time = ticks % 2 ^ 32; high_date_time = ticks / 2 ^ 32 }

secs_to_unix_epoch-1601 : secs_from_1601_to_1970 ≡ secs_to_unix_epoch
secs_to_unix_epoch-1601 = refl

-- The `FILETIME` of a time from the Unix epoch on, the number of 100 ns ticks since Jan 1 1601 in the
-- Gregorian calendar, is read back to 100 ns, as long as the number has 64 bits.
pub filetime_to_systemtime-filetime_of :
    (ns : ℕ)
    → ns / 100 + secs_from_1601_to_1970 * 10000000 ≤ u64_max
    → filetime_to_systemtime (filetime_of ns) ≡ ns / 100 * 100
unfolding filetime_to_systemtime
filetime_to_systemtime-filetime_of ns fits = let epoch = secs_to_unix_epoch-1601 in omega arith
