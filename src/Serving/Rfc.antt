-- ===== src/Serving/Rfc.antt =====
-- The order in which RFC 7232, section 6, takes the preconditions of a GET or HEAD request.
use http_serve.Base.{
  Bool, true, false, not, Option, none, some, List, ◌∷◌, ltb, leb, any, if◌then◌else◌,
}
use http_serve.Http.{SystemTime}
use http_serve.Etag.Compare.{EntityTag}
use http_serve.Etag.Items.{TagItem}
use http_serve.Etag.Headers.{matches_weakly, matches_strongly}

-- What If-Match or If-None-Match lists: `*`, or some entity tags.
pub data Tags : Type 0 where
  star : Tags
  listed : TagItem → List TagItem → Tags

-- The preconditions of a request. `match_tags` and `none_match_tags` are those of If-Match and
-- If-None-Match, the other two are the dates.
pub record Preconditions : Type 0 where
  pub match_tags : Option Tags
  pub unmodified_since : Option SystemTime
  pub none_match_tags : Option Tags
  pub modified_since : Option SystemTime

-- The representation that the server has: its tag and its time, if there are any.
pub record Validators : Type 0 where
  pub tag : Option EntityTag
  pub modified : Option SystemTime

-- `*` is for any representation; a list is for those whose tag compares as equal.
abbrev pub is_for : (EntityTag → TagItem → Bool) → Option EntityTag → Tags → Bool
is_for matches tag star = true
is_for matches none (listed i is) = false
is_for matches (some e) (listed i is) = any (matches e) (i ∷ is)

-- The dates count only with a modification time.
abbrev pub was_modified : Option SystemTime → Option SystemTime → Bool
was_modified (some m) (some since) = ltb since m
was_modified _ _ = false

abbrev pub was_unmodified : Option SystemTime → Option SystemTime → Bool
was_unmodified (some m) (some since) = leb m since
was_unmodified _ _ = false

-- Steps 1 and 2: If-Match, compared strongly, or without it If-Unmodified-Since.
abbrev pub is_refused : Validators → Option Tags → Option SystemTime → Bool
is_refused v (some tags) unmodified_since = not (is_for matches_strongly v.tag tags)
is_refused v none unmodified_since = was_modified v.modified unmodified_since

-- Steps 3 and 4: If-None-Match, compared weakly, or without it If-Modified-Since.
abbrev pub is_current : Validators → Option Tags → Option SystemTime → Bool
is_current v (some tags) modified_since = is_for matches_weakly v.tag tags
is_current v none modified_since = was_unmodified v.modified modified_since

-- What the server does: answer 412, answer 304, or go on with the Range header.
pub data Decision : Type 0 where
  refuse not_changed proceed : Decision

abbrev pub decide : Validators → Preconditions → Decision
decide v p =
    if is_refused v p.match_tags p.unmodified_since
    then refuse
    else if is_current v p.none_match_tags p.modified_since
    then not_changed
    else proceed
