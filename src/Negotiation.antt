-- ===== src/Negotiation.antt =====
-- src/lib.rs: the Accept-Encoding header, and the parts of a streaming response.
pub mod Quality
pub mod Grammar
pub mod Trimmed
pub mod Qvalues
pub mod Parts
pub mod Accepts
use http_serve.Base.{
  ℕ, ◌*◌, ◌%◌, ◌^◌, Bool, true, false, not, ◌&&◌, ◌||◌, Option, none, some, List, [], ◌∷◌, ltb, leb,
  if◌then◌else◌, Bytes, codes, bytes_eq, drop,
}
use http_serve.Std.Str.{strip_prefix, starts_with, split, split_once, trim}
use http_serve.Std.Num.{u16_from_str}
use http_serve.Http.{Method, get, head, other, RequestHeaders, HttpCrates, accept_encoding}

-- `v * factor` of two `u16`s
abbrev pub scaled : Option ℕ → ℕ → Option ℕ
scaled none factor = none
scaled (some v) factor = some (v * factor % 2 ^ 16)

-- `0.` is gone; the factor depends on how many bytes are left.
abbrev pub thousandths : Bytes → Option ℕ
thousandths (a ∷ []) = scaled (u16_from_str (a ∷ [])) 100
thousandths (a ∷ b ∷ []) = scaled (u16_from_str (a ∷ b ∷ [])) 10
thousandths (a ∷ b ∷ c ∷ []) = scaled (u16_from_str (a ∷ b ∷ c ∷ [])) 1
thousandths _ = none

unfoldable pub parse_qvalue : Bytes → Option ℕ
unfolding bytes_eq starts_with
parse_qvalue s =
    if bytes_eq s (codes "1")
      || (bytes_eq s (codes "1.")
          || (bytes_eq s (codes "1.0")
              || (bytes_eq s (codes "1.00") || bytes_eq s (codes "1.000"))))
    then some 1000
    else if bytes_eq s (codes "0") || bytes_eq s (codes "0.")
    then some 0
    else if not (starts_with (codes "0.") s)
    then none
    else thousandths (drop 2 s)

-- The three qualities that the loop collects.
pub record Qualities : Type 0 where
  pub gzip_q : Option ℕ
  pub identity_q : Option ℕ
  pub star_q : Option ℕ

abbrev pub no_qualities : Qualities
no_qualities = record { gzip_q = none; identity_q = none; star_q = none }

abbrev pub parse_quality : Option Bytes → Option ℕ
parse_quality none = none
parse_quality (some q) = parse_qvalue q

-- A coding and its quality, of a part split at its `;`
abbrev pub parse_part : Bytes → Option (Bytes × Bytes) → Option (Bytes × ℕ)
parse_part qi none = some (trim qi, 1000)
parse_part qi (some (c, q)) =
    with_coding (trim c) (parse_quality (strip_prefix (codes "q=") (trim q)))
  where
    with_coding : Bytes → Option ℕ → Option (Bytes × ℕ)
    with_coding coding none = none
    with_coding coding (some quality) = some (coding, quality)

unfoldable pub record_quality : Bytes → ℕ → Qualities → Qualities
unfolding bytes_eq
record_quality coding quality q =
    if bytes_eq coding (codes "gzip")
    then record q { gzip_q = some quality }
    else if bytes_eq coding (codes "identity")
    then record q { identity_q = some quality }
    else if bytes_eq coding (codes "*")
    then record q { star_q = some quality }
    else q

abbrev pub or_else : Option ℕ → Option ℕ → Option ℕ
or_else none b = b
or_else (some a) b = some a

abbrev pub unwrap_or_number : Option ℕ → ℕ → ℕ
unwrap_or_number none d = d
unwrap_or_number (some a) d = a

abbrev pub prefers_gzip : Qualities → Bool
prefers_gzip q =
    let gzip_q = unwrap_or_number (or_else q.gzip_q q.star_q) 0 in
    let identity_q = unwrap_or_number (or_else q.identity_q q.star_q) 1 in
    ltb 0 gzip_q && leb identity_q gzip_q

-- The loop over the parts; `false` as soon as one is unparseable.
abbrev pub on_part : Option (Bytes × ℕ) → Qualities → (Qualities → Bool) → Bool
on_part none q k = false
on_part (some (coding, quality)) q k = k (record_quality coding quality q)

unfoldable pub each_part : List Bytes → Qualities → Bool
unfolding record_quality parse_qvalue strip_prefix split_once trim
each_part [] q = prefers_gzip q
each_part (qi ∷ parts) q = on_part (parse_part qi (split_once b';' qi)) q (each_part parts)

abbrev pub gzip_text : Option Bytes → Bool
gzip_text none = false
gzip_text (some s) = each_part (split b',' s) no_qualities

abbrev pub gzip_header : HttpCrates → Option Bytes → Bool
gzip_header crates none = false
gzip_header crates (some v) = gzip_text (crates.to_str v)

unfoldable pub should_gzip : HttpCrates → RequestHeaders → Bool
unfolding each_part split
should_gzip crates headers = gzip_header crates (headers accept_encoding)

pub record StreamingBodyBuilder : Type 0 where
  pub chunk_size : ℕ
  pub gzip_level : ℕ
  pub gzips : Bool
  pub body_needed : Bool

abbrev is_head : Method → Bool
is_head head = true
is_head get = false
is_head other = false

unfoldable pub streaming_body : HttpCrates → Method → RequestHeaders → StreamingBodyBuilder
unfolding should_gzip
streaming_body crates m headers = record {
  chunk_size = 4096;
  gzip_level = 6;
  gzips = should_gzip crates headers;
  body_needed = not (is_head m);
}

-- The builder's two setters.
abbrev pub with_chunk_size : ℕ → StreamingBodyBuilder → StreamingBodyBuilder
with_chunk_size chunk_size b = record b { chunk_size = chunk_size }

abbrev pub with_gzip_level : ℕ → StreamingBodyBuilder → StreamingBodyBuilder
with_gzip_level gzip_level b = record b { gzip_level = gzip_level }
