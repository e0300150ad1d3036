-- ===== src/Tests/Windows.antt =====
-- The Windows part of src/platform.rs
use http_serve.Base.{
  Bool, subst, ℕ, ◌*◌, ◌/◌, ◌≡◌, refl, ◌≤◌, ◌<◌, true, false, arith, Bytes, Result, ok, err, length,
  take, drop, leb, if◌then◌else◌, length-take, length-drop,
}
use http_serve.Windows.{WinApi, HandleInfo, joined, read_at, filetime_to_systemtime}
use http_serve.Windows.Reads.{
  ReadsFile, RunReadsAt, read_at-ReadsAt, filetime_of, filetime_to_systemtime-filetime_of,
}
use http_serve.Tests.File.{contents, take-length-take, length-take_le}

abbrev info : HandleInfo
info = record {
  last_write_time = filetime_of 1500000000;
  file_size_high = 0;
  file_size_low = 7;
  file_index_high = 1;
  file_index_low = 2;
}

-- A handle whose reads give all the bytes that there are.
abbrev read_file : ℕ → ℕ → ℕ → Result Bytes ℕ
read_file n low high =
    if leb (length contents) (joined high low)
    then err 38
    else ok (take n (drop (joined high low) contents))

abbrev winapi : WinApi
winapi = record {
  read_file = read_file;
  get_file_information_by_handle = ok info;
  error_io_pending = 997;
  error_handle_eof = 38;
}

-- What a read gives at an offset `k` before the end, and from it on.
before_end :
    (n k : ℕ) (v : Bytes)
    → 0 < n
    → ◌≡◌ {A = Result Bytes ℕ}
        (if leb (length contents) k then err 38 else ok (take n (drop k contents)))
        (ok v)
    → (0 < length v) × (length v ≤ n) × (v ≡ take (length v) (drop k contents))
before_end n k v more given = go (leb (length contents) k) refl given
  where
    go :
        (b : Bool)
        → leb (length contents) k ≡ b
        → ◌≡◌ {A = Result Bytes ℕ} (if b then err 38 else ok (take n (drop k contents))) (ok v)
        → (0 < length v) × (length v ≤ n) × (v ≡ take (length v) (drop k contents))
    go true over e = cc
    go false before e =
        let same : take n (drop k contents) ≡ v = cc in
        let inside : k < 7 = ground arith in
        subst (λ x. (0 < length x) × (length x ≤ n) × (x ≡ take (length x) (drop k contents))) same
          (
            omega (arith, length-take {0} n (drop k contents), length-drop {0} k contents),
            length-take_le n (drop k contents),
            take-length-take n (drop k contents),
          )

error_code :
    (n k o : ℕ)
    → (if leb (length contents) k then err 38 else ok (take n (drop k contents))) ≡ err o
    → o ≡ 38
error_code n k o given = go (leb (length contents) k) given
  where
    go : (b : Bool) → (if b then err 38 else ok (take n (drop k contents))) ≡ err o → o ≡ 38
    go true e = cc
    go false e = cc

winapi-ReadsFile : ReadsFile contents winapi
winapi-ReadsFile = record {
  some_bytes = λ n low high v more given. before_end n (joined high low) v more given;
  at_end = λ n low high o given over. error_code n (joined high low) o given;
  synchronous =
      λ n low high o given. let code = error_code n (joined high low) o given in ground arith;
}

read_at-ReadsAt_example : RunReadsAt contents 3 5 (read_at winapi 3 5)
read_at-ReadsAt_example =
    read_at-ReadsAt contents winapi winapi-ReadsFile 3 5 (omega arith) (omega arith)

filetime_to_systemtime-filetime_of_example :
    filetime_to_systemtime (filetime_of 1500000123) ≡ 1500000123 / 100 * 100
filetime_to_systemtime-filetime_of_example =
    filetime_to_systemtime-filetime_of 1500000123 (omega arith)
