-- ===== src/Serving/Asks.antt =====
-- src/serving.rs: the preconditions that a request states, and `parse_modified_hdrs` on them.
use http_serve.Base.{
  ◌≡◌, refl, Option, none, some, [], ◌∷◌, Bytes, codes, ok, All, ap, ◌∙◌, ◌⊎◌, Bool, true, false,
  not, if◌then◌else◌, bytes_eq, Result, ◌>>=◌, inl, inr, bind_assoc,
}
use http_serve.Http.{
  RequestHeaders, SystemTime, HttpCrates, if_match, if_none_match, if_modified_since,
  if_unmodified_since,
}
use http_serve.Etag.{
  none_match, any_match, none_match_header, any_match_header, none_match_value, any_match_value,
}
use http_serve.Etag.Compare.{EntityTag, print}
use http_serve.Etag.Items.{IsItem, print_items}
use http_serve.Etag.Headers.{
  matches_weakly, matches_strongly, none_match-print_items, any_match-print_items,
  print_items-ne-star,
}
use http_serve.Conditions.{
  modified_after, not_modified_since, precondition, unmodified, parse_modified_hdrs,
}
use http_serve.Serving.Matched.{no_modified_after, any_match-none}
use http_serve.Serving.Dates.{none_match-none}
use http_serve.Serving.Rfc.{
  Tags, star, listed, Preconditions, Validators, is_for, was_modified, was_unmodified, is_refused,
  is_current,
}

-- The header is absent, or its value is such a list, of tags that have no quotation mark in them.
abbrev pub TagsAre : Option Bytes → Option Tags → Type 0
TagsAre h none = h ≡ none
TagsAre h (some star) = h ≡ some (codes "*")
TagsAre h (some (listed i is)) = All IsItem (i ∷ is) × (h ≡ some (print_items (i ∷ is) []))

-- The header is absent, or its value is a date that can be read.
abbrev pub DateIs : HttpCrates → Option Bytes → Option SystemTime → Type 0
DateIs crates h none = h ≡ none
DateIs crates h (some d) =
    (value : Bytes) × (text : Bytes) × (h ≡ some value)
    × (crates.to_str value ≡ some text)
    × (crates.parse_http_date text ≡ some d)

abbrev pub tag_text : Option EntityTag → Option Bytes
tag_text none = none
tag_text (some e) = some (print e)

any_match-TagsAre :
    (tag : Option EntityTag) (req_hdrs : RequestHeaders) (tags : Tags)
    → TagsAre (req_hdrs if_match) (some tags)
    → any_match (tag_text tag) req_hdrs ≡ ok (is_for matches_strongly tag tags)
unfolding any_match any_match_value bytes_eq
any_match-TagsAre none req_hdrs star h = ap (any_match_header none) h
any_match-TagsAre (some e) req_hdrs star h = ap (any_match_header (some (print e))) h
any_match-TagsAre none req_hdrs (listed i is) (items, h) =
    ap (any_match_header none) h
    ∙ ap (λ b. if b then ok true else ok false) (print_items-ne-star i is [])
any_match-TagsAre (some e) req_hdrs (listed i is) (items, h) =
    any_match-print_items e req_hdrs i is [] items (tt, (λ x. absurd (x refl))) h

none_match-TagsAre :
    (tag : Option EntityTag) (req_hdrs : RequestHeaders) (tags : Tags)
    → TagsAre (req_hdrs if_none_match) (some tags)
    → none_match (tag_text tag) req_hdrs ≡ some (not (is_for matches_weakly tag tags))
unfolding none_match none_match_value bytes_eq
none_match-TagsAre none req_hdrs star h = ap (none_match_header none) h
none_match-TagsAre (some e) req_hdrs star h = ap (none_match_header (some (print e))) h
none_match-TagsAre none req_hdrs (listed i is) (items, h) =
    ap (none_match_header none) h
    ∙ ap (λ b. if b then some false else some true) (print_items-ne-star i is [])
none_match-TagsAre (some e) req_hdrs (listed i is) (items, h) =
    none_match-print_items e req_hdrs i is [] items (tt, (λ x. absurd (x refl))) h

module _ (crates : HttpCrates) where
  modified_after-DateIs :
      (m : Option SystemTime) (h : Option Bytes) (d : Option SystemTime)
      → DateIs crates h d
      → modified_after crates m h ≡ ok (was_modified m d)
  unfolding modified_after
  modified_after-DateIs none h d date = refl
  modified_after-DateIs (some m) h none date = rw date refl
  modified_after-DateIs (some m) h (some d) (value, text, sent, ascii, read) =
      rw (sent, ascii, read) refl

  not_modified_since-DateIs :
      (m : Option SystemTime) (h : Option Bytes) (d : Option SystemTime)
      → DateIs crates h d
      → not_modified_since crates m h ≡ ok (was_unmodified m d)
  unfolding not_modified_since
  not_modified_since-DateIs none h d date = refl
  not_modified_since-DateIs (some m) h none date = rw date refl
  not_modified_since-DateIs (some m) h (some d) (value, text, sent, ascii, read) =
      rw (sent, ascii, read) refl

-- A request with these preconditions. If-Unmodified-Since does not stand beside If-Match.
pub record Asks (crates : HttpCrates) (req_hdrs : RequestHeaders) (p : Preconditions) : Type 0 where
  pub match_tags_are : TagsAre (req_hdrs if_match) p.match_tags
  pub unmodified_since_is : DateIs crates (req_hdrs if_unmodified_since) p.unmodified_since
  pub none_match_tags_are : TagsAre (req_hdrs if_none_match) p.none_match_tags
  pub modified_since_is : DateIs crates (req_hdrs if_modified_since) p.modified_since
  pub alone : (p.match_tags ≡ none) ⊎ (p.unmodified_since ≡ none)

module _ (crates : HttpCrates) (v : Validators) (req_hdrs : RequestHeaders) where
  -- `precondition_failed`, as the code computes it
  abbrev refused : Result Bool Bytes
  refused = any_match (tag_text v.tag) req_hdrs >>= λ matched.
      precondition crates matched v.modified (req_hdrs if_unmodified_since)

  refused-is_refused :
      (tags : Option Tags) (d : Option SystemTime)
      → TagsAre (req_hdrs if_match) tags
      → DateIs crates (req_hdrs if_unmodified_since) d
      → (tags ≡ none) ⊎ (d ≡ none)
      → refused ≡ ok (is_refused v tags d)
  refused-is_refused none d h date alone =
      rw (any_match-none (tag_text v.tag) req_hdrs h)
        (modified_after-DateIs crates v.modified (req_hdrs if_unmodified_since) d date)
  refused-is_refused (some tags) (some d) h date (inl e) = cc
  refused-is_refused (some tags) (some d) h date (inr e) = cc
  refused-is_refused (some tags) none h date alone =
      rw (any_match-TagsAre v.tag req_hdrs tags h) (go (is_for matches_strongly v.tag tags))
    where
      go : (b : Bool) → precondition crates b v.modified (req_hdrs if_unmodified_since) ≡ ok (not b)
      go true = rw date (no_modified_after crates v.modified)
      go false = refl

  unmodified-is_current :
      (tags : Option Tags) (d : Option SystemTime)
      → TagsAre (req_hdrs if_none_match) tags
      → DateIs crates (req_hdrs if_modified_since) d
      → unmodified crates
          (none_match (tag_text v.tag) req_hdrs)
          v.modified
          (req_hdrs if_modified_since)
        ≡ ok (is_current v tags d)
  unmodified-is_current none d h date =
      rw (none_match-none (tag_text v.tag) req_hdrs h)
        (not_modified_since-DateIs crates v.modified (req_hdrs if_modified_since) d date)
  unmodified-is_current (some tags) d h date =
      rw (none_match-TagsAre v.tag req_hdrs tags h) (go (is_for matches_weakly v.tag tags))
    where
      go :
          (b : Bool)
          → unmodified crates (some (not b)) v.modified (req_hdrs if_modified_since) ≡ ok b
      go true = refl
      go false = refl

  pub parse_modified_hdrs-Asks :
      (p : Preconditions)
      → Asks crates req_hdrs p
      → parse_modified_hdrs crates (tag_text v.tag) req_hdrs v.modified
        ≡ ok (
          is_refused v p.match_tags p.unmodified_since,
          is_current v p.none_match_tags p.modified_since,
        )
  unfolding parse_modified_hdrs
  parse_modified_hdrs-Asks p asks =
      bind_assoc (any_match (tag_text v.tag) req_hdrs)
        (λ matched. precondition crates matched v.modified (req_hdrs if_unmodified_since))
        (λ failed.
          unmodified crates (none_match (tag_text v.tag) req_hdrs) v.modified
            (req_hdrs if_modified_since)
          >>= λ current. ok (failed, current))
      ∙ rw
          (
            refused-is_refused p.match_tags p.unmodified_since asks.match_tags_are
                asks.unmodified_since_is asks.alone,
            unmodified-is_current p.none_match_tags p.modified_since asks.none_match_tags_are
                asks.modified_since_is,
          )
          refl
