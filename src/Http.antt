-- ===== src/Http.antt =====
use http_serve.Base.{ℕ, Option, List, [], ◌∷◌, ◌++◌, Bytes}

-- What the program uses of the `http` and `httpdate` crates: names that it mentions, and functions
-- that it calls, which are parameters.

-- The methods that the program tells apart. `other` stands for every other one.
pub data Method : Type 0 where
  get head other : Method

-- `custom` is any other name, in lower case, which an entity may add.
pub data HeaderName : Type 0 where
  accept_encoding accept_ranges allow content_encoding content_length content_range : HeaderName
  content_type date etag if_match if_modified_since if_none_match if_range : HeaderName
  if_unmodified_since last_modified location range vary : HeaderName
  custom : Bytes → HeaderName

pub data StatusCode : Type 0 where
  status_ok partial_content not_modified bad_request method_not_allowed : StatusCode
  precondition_failed payload_too_large range_not_satisfiable : StatusCode
  moved_permanently status_not_found internal_server_error : StatusCode

-- A request's `HeaderMap`, which the program only asks for the value of a name.
abbrev pub RequestHeaders : Type 0
RequestHeaders = HeaderName → Option Bytes

-- `SystemTime`: the nanoseconds from the Unix epoch on.
abbrev pub SystemTime : Type 0
SystemTime = ℕ

-- A response's `HeaderMap`, in the order in which it is iterated over.
abbrev pub HeaderMap : Type 0
HeaderMap = List (HeaderName × Bytes)

-- `response::Builder`, and the parts of a response in front of its body.
pub record Builder : Type 0 where
  pub status : StatusCode
  pub headers : HeaderMap

-- `Builder::header`
abbrev pub with_header : Builder → HeaderName → Bytes → Builder
with_header b name value = record b { headers = b.headers ++ (name, value) ∷ [] }

abbrev pub with_status : Builder → StatusCode → Builder
with_status b status = record b { status = status }

-- `HeaderName::as_str`, `HeaderValue::to_str`, `HeaderMap::extend` and `HeaderMap::insert`, and
-- `parse_http_date` and `fmt_http_date` of `httpdate`.
pub record HttpCrates : Type 0 where
  pub as_str : HeaderName → Bytes
  pub to_str : Bytes → Option Bytes
  pub extend : HeaderMap → HeaderMap → HeaderMap
  pub insert : HeaderName → Bytes → HeaderMap → HeaderMap
  pub parse_http_date : Bytes → Option SystemTime
  pub fmt_http_date : SystemTime → Bytes
