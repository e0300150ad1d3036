-- ===== src/Etag.antt =====
-- src/etag.rs: entity tags, lists of them, and the `If-None-Match` and `If-Match` headers.
pub mod Compare
pub mod Items
pub mod Headers
pub mod Ends
use http_serve.Base.{
  ℕ, zero, suc, ◌+◌, Bool, true, false, not, ◌&&◌, ◌||◌, Option, none, some, [], ◌∷◌, ◌==◌,
  if◌then◌else◌, Bytes, codes, bytes_eq, Result, ok, err, length, take, drop, ◌*◌,
}
use http_serve.Std.Str.{strip_prefix, starts_with, position, trim_start_matches}
use http_serve.Http.{RequestHeaders, if_none_match, if_match}

-- `"W/"`
abbrev pub weak_prefix : Bytes
weak_prefix = codes "W/"

abbrev pub quote : ℕ
quote = b'"'

abbrev unwrap_or : Option Bytes → Bytes → Bytes
unwrap_or none d = d
unwrap_or (some a) d = a

unfoldable pub weak_eq : Bytes → Bytes → Bool
unfolding strip_prefix
weak_eq a b =
    bytes_eq (unwrap_or (strip_prefix weak_prefix a) a) (unwrap_or (strip_prefix weak_prefix b) b)

unfoldable pub strong_eq : Bytes → Bytes → Bool
unfolding starts_with
strong_eq a b = bytes_eq a b && not (starts_with weak_prefix a)

-- The iterator over a `1#entity-tag`; `List` in the source.
pub record TagList : Type 0 where
  pub remaining : Bytes
  pub corrupt : Bool

abbrev pub from : Bytes → TagList
from l = record { remaining = l; corrupt = false }

abbrev pub shift : ℕ → Option ℕ → Option ℕ
shift k none = none
shift k (some p) = some (p + k)

-- Where the closing quote of a leading entity tag stands.
unfoldable pub find_end : Bytes → Option ℕ
unfolding starts_with position
find_end s =
    if starts_with (codes "W/\"") s
    then shift 3 (position quote (drop 3 s))
    else if starts_with (codes "\"") s
    then shift 1 (position quote (drop 1 s))
    else none

abbrev pub is_ows : ℕ → Bool
is_ows c = c == b' ' || c == b'\t'

-- a comma and the white space behind it
unfoldable pub skip_separator : Bytes → Bytes
unfolding trim_start_matches
skip_separator [] = []
skip_separator (c ∷ r) = if c == b',' then trim_start_matches is_ows r else c ∷ r

unfoldable pub next_at : Option ℕ → TagList → Option Bytes × TagList
unfolding skip_separator
next_at none l = (none, record l { corrupt = true })
next_at (some end) l = (
  some (take (end + 1) l.remaining),
  record l { remaining = skip_separator (drop (end + 1) l.remaining) },
)

unfoldable pub next_from : Bytes → TagList → Option Bytes × TagList
unfolding find_end next_at
next_from [] l = (none, l)
next_from (c ∷ s) l = next_at (find_end (c ∷ s)) l

-- `Iterator::next`
unfoldable pub next : TagList → Option Bytes × TagList
unfolding next_from
next l = next_from l.remaining l

module _ {S : Type 0} (body : S → Bytes → S) where
  -- One round of `for item in &mut items { … }`; `k` is the rest of the loop.
  abbrev pub round : Option Bytes × TagList → S → (S → TagList → S × TagList) → S × TagList
  round (none, l) s k = (s, l)
  round (some item, l) s k = k (body s item) l

  -- The loop, with its state and the iterator that is left. Each round takes a byte or more.
  unfoldable pub each : ℕ → S → TagList → S × TagList
  unfolding next
  each zero s l = (s, l)
  each (suc fuel) s l = round (next l) s (each fuel)

unfoldable pub none_match_item : Bytes → Bool → Bytes → Bool
unfolding weak_eq
none_match_item etag none_match item = if none_match && weak_eq item etag then false else none_match

unfoldable pub any_match_item : Bytes → Bool → Bytes → Bool
unfolding strong_eq
any_match_item etag any_match item =
    if not any_match && strong_eq item etag then true else any_match

abbrev none_match_end : Bool × TagList → Option Bool
none_match_end (none_match, items) = if items.corrupt then none else some none_match

abbrev any_match_end : Bool × TagList → Result Bool Bytes
any_match_end (any_match, items) =
    if items.corrupt then err (codes "Unparseable If-Match header") else ok any_match

-- The value of `If-None-Match` against the entity's tag.
unfoldable pub none_match_value : Option Bytes → Bytes → Option Bool
unfolding each none_match_item bytes_eq
none_match_value none m = if bytes_eq m (codes "*") then some false else some true
none_match_value (some etag) m =
    if bytes_eq m (codes "*")
    then some false
    else none_match_end (each (none_match_item etag) (length m + 1) true (from m))

unfoldable pub any_match_value : Option Bytes → Bytes → Result Bool Bytes
unfolding each any_match_item bytes_eq
any_match_value none m = if bytes_eq m (codes "*") then ok true else ok false
any_match_value (some etag) m =
    if bytes_eq m (codes "*")
    then ok true
    else any_match_end (each (any_match_item etag) (length m + 1) false (from m))

abbrev pub none_match_header : Option Bytes → Option Bytes → Option Bool
none_match_header etag none = none
none_match_header etag (some m) = none_match_value etag m

abbrev pub any_match_header : Option Bytes → Option Bytes → Result Bool Bytes
any_match_header etag none = ok true
any_match_header etag (some m) = any_match_value etag m

unfoldable pub none_match : Option Bytes → RequestHeaders → Option Bool
unfolding none_match_value
none_match etag req_hdrs = none_match_header etag (req_hdrs if_none_match)

unfoldable pub any_match : Option Bytes → RequestHeaders → Result Bool Bytes
unfolding any_match_value
any_match etag req_hdrs = any_match_header etag (req_hdrs if_match)
