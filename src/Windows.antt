-- ===== src/Windows.antt =====
-- The Windows part of src/platform.rs: reading a file and its facts.
pub mod Reads
use http_serve.Base.{
  ℕ, ◌+◌, ◌-◌, ◌*◌, ◌/◌, ◌%◌, ◌^◌, min, Option, none, some, Bytes, Result, ok, err, if◌then◌else◌,
  ◌==◌, wrapping_sub,
}
use http_serve.Http.{SystemTime}
use http_serve.Io.{since_epoch, IoError, unexpected_eof, os_error}
use http_serve.File.{FileInfo}

-- `DWORD::MAX`
abbrev pub dword_max : ℕ
dword_max = 2 ^ 32 - 1

-- Two words of 32 bits, the high one first: `(high as u64) << 32 | low as u64`.
abbrev pub joined : ℕ → ℕ → ℕ
joined high low = high * 2 ^ 32 + low

-- `FILETIME`
pub record FileTime : Type 0 where
  pub low_date_time : ℕ
  pub high_date_time : ℕ

-- What the code reads of `BY_HANDLE_FILE_INFORMATION`.
pub record HandleInfo : Type 0 where
  pub last_write_time : FileTime
  pub file_size_high : ℕ
  pub file_size_low : ℕ
  pub file_index_high : ℕ
  pub file_index_low : ℕ

-- What the code uses of the `winapi` crate, on one handle. `read_file` has the number of bytes asked
-- for and the low and the high word of the offset; a failing call has the code of `GetLastError`.
pub record WinApi : Type 0 where
  pub read_file : ℕ → ℕ → ℕ → Result Bytes ℕ
  pub get_file_information_by_handle : Result HandleInfo ℕ
  pub error_io_pending : ℕ
  pub error_handle_eof : ℕ

-- A call that returns, or aborts the process.
pub data Run (A : Type 0) : Type 0 where
  returned : A → Run A
  aborted : Run A

-- `SECS_TO_UNIX_EPOCH`
abbrev pub secs_to_unix_epoch : ℕ
secs_to_unix_epoch = 11644473600

unfoldable pub filetime_to_systemtime : FileTime → SystemTime
filetime_to_systemtime time =
    let ticks = joined time.high_date_time time.low_date_time in
    let secs = wrapping_sub (ticks / 10000000) secs_to_unix_epoch in
    let nanos = ticks % 10000000 * 100 in secs * 10 ^ 9 + nanos

module _ (winapi : WinApi) where
  open winapi use {read_file, get_file_information_by_handle, error_io_pending, error_handle_eof}

  abbrev pub on_error : ℕ → ℕ → Run (Result Bytes IoError)
  on_error offset o =
      if o == error_io_pending
      then aborted
      else returned (err (if o == error_handle_eof then unexpected_eof offset else os_error o))

  abbrev pub on_read_file : ℕ → Result Bytes ℕ → Run (Result Bytes IoError)
  on_read_file offset (err o) = on_error offset o
  on_read_file offset (ok chunk) = returned (ok chunk)

  -- `FileExt::read_at`
  unfoldable pub read_at : ℕ → ℕ → Run (Result Bytes IoError)
  read_at chunk_size offset =
      on_read_file offset
        (read_file (min chunk_size dword_max) (offset % 2 ^ 32) (offset / 2 ^ 32 % 2 ^ 32))

  abbrev pub info_of : Result HandleInfo ℕ → Result FileInfo IoError
  info_of (err o) = err (os_error o)
  info_of (ok info) = ok (record {
    inode = joined info.file_index_high info.file_index_low;
    len = joined info.file_size_high info.file_size_low;
    mtime = since_epoch (filetime_to_systemtime info.last_write_time);
  })

  -- `file_info`
  unfoldable pub file_info : Result FileInfo IoError
  file_info = info_of get_file_information_by_handle
