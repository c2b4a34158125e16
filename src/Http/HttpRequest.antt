-- ===== src/Http/HttpRequest.antt =====
-- http/HttpRequest.h: a request under construction. Strings are lists of bytes; a range of
-- pointers that the source passes is the list of the bytes in it.
pub mod Methods
pub mod Trim
use carf_lib.Shared.{
  ℕ, zero, suc, ◌+◌, ◌-◌, ◌*◌, ◌/◌, ◌%◌, ◌^◌, ◌≤◌, ◌<◌, min, ◌≡◌, refl, sym, ap, ap₂, ◌∙◌, subst,
  ◌≢◌, ◌↔◌, ◌⊎◌, inl, inr, Bool, true, false, not, ◌&&◌, ◌||◌, Option, none, some, List, [], ◌∷◌,
  ◌++◌, map, append-nil, append_assoc, arith, ltb, leb, ◌==◌, if◌then◌else◌, ==_iff, Bool-cases,
  Option-cases, ◌>>=◌, Bytes, codes, bytes_eq, bytes_eq_iff, find_byte, is_space, length, get_elem?,
  take, drop, replicate, length-append, take-append-drop, length-take, length-drop,
  length-replicate, take-append, drop-append, take-append_le, drop-append_le, take_all, drop_all,
  drop-drop, take-drop, take-take, take-append_split, drop-append_split, take-replicate,
  drop-replicate,
}
use mathlib.Core.List.{reverse}
use carf_lib.Shared.StdMap.{assign, lookup, bytes_key}

pub data Method : Type 0 where
  get post head put delete trace options connect path : Method

pub data Version : Type 0 where
  unknown http10 http11 : Version

pub record HttpRequest : Type 0 where
  pub headers : List (Bytes × Bytes)
  pub path : Bytes
  pub query : Bytes
  pub body : Bytes
  pub method : Method
  pub version : Version

-- The constructor.
abbrev pub fresh : HttpRequest
fresh = record {
  headers = [];
  path = [];
  query = [];
  body = [];
  method = Method.get;
  version = Version.http11;
}

abbrev pub set_version : HttpRequest → Version → HttpRequest
set_version r v = record r { version = v }

-- The ladder of `setMethod`, with the spelling of its last test.
unfoldable pub method_of : Bytes → Method
method_of s =
    if bytes_eq s (codes "GET")
    then Method.get
    else if bytes_eq s (codes "POST")
    then Method.post
    else if bytes_eq s (codes "HEAD")
    then Method.head
    else if bytes_eq s (codes "PUT")
    then Method.put
    else if bytes_eq s (codes "DELETE")
    then Method.delete
    else if bytes_eq s (codes "TRACE")
    then Method.trace
    else if bytes_eq s (codes "OPTIONS")
    then Method.options
    else if bytes_eq s (codes "CONNET")
    then Method.connect
    else Method.path

-- Every branch of the source sets `succeed`.
unfoldable pub set_method : HttpRequest → Bytes → HttpRequest × Bool
unfolding method_of
set_method r s = (record r { method = method_of s }, true)

unfoldable pub method_string : Method → Bytes
method_string Method.get = codes "GET"
method_string Method.post = codes "POST"
method_string Method.head = codes "HEAD"
method_string Method.put = codes "PUT"
method_string Method.delete = codes "DELETE"
method_string Method.trace = codes "TRACE"
method_string Method.options = codes "OPTIONS"
method_string Method.connect = codes "CONNECT"
method_string Method.path = codes "PATH"

abbrev pub set_path : HttpRequest → Bytes → HttpRequest
set_path r s = record r { path = s }

abbrev pub set_query : HttpRequest → Bytes → HttpRequest
set_query r s = record r { query = s }

-- `while (colon < end && isspace(*colon)) ++colon;`
unfoldable pub drop_spaces : Bytes → Bytes
drop_spaces [] = []
drop_spaces (c ∷ cs) = let rest = drop_spaces cs in if is_space c then rest else c ∷ cs

-- `while (!value.empty() && isspace(value[value.size()-1])) value.resize(value.size()-1);`
unfoldable pub drop_last_spaces : Bytes → Bytes
unfolding drop_spaces
drop_last_spaces s = reverse (drop_spaces (reverse s))

unfoldable pub header_value : Bytes → Bytes
unfolding drop_last_spaces
header_value s = drop_last_spaces (drop_spaces s)

-- `addHeader(start, colon, end)`: the field before the colon, and what stands behind the colon.
unfoldable pub add_header : HttpRequest → Bytes → Bytes → HttpRequest
unfolding header_value
add_header r field rest = record r { headers = assign field (header_value rest) r.headers }

abbrev pub append_body : HttpRequest → Bytes → HttpRequest
append_body r s = record r { body = r.body ++ s }

abbrev pub body_length : HttpRequest → ℕ
body_length r = length r.body

abbrev or_empty : Option Bytes → Bytes
or_empty none = []
or_empty (some s) = s

-- A missing field reads as the empty string.
unfoldable pub get_header : HttpRequest → Bytes → Bytes
get_header r field = or_empty (lookup field r.headers)
