-- ===== src/Http/HttpResponse.antt =====
-- http/HttpResponse.h and http/HttpResponse.cc: a response and its text.
pub mod Text
use carf_lib.Shared.{
  ℕ, zero, suc, ◌+◌, ◌-◌, ◌*◌, ◌/◌, ◌%◌, ◌^◌, ◌≤◌, ◌<◌, min, ◌≡◌, refl, sym, ap, ap₂, ◌∙◌, subst,
  ◌≢◌, ◌↔◌, ◌⊎◌, inl, inr, Bool, true, false, not, ◌&&◌, ◌||◌, Option, none, some, List, [], ◌∷◌,
  ◌++◌, map, append-nil, append_assoc, arith, ltb, leb, ◌==◌, if◌then◌else◌, ==_iff, Bool-cases,
  Option-cases, ◌>>=◌, Bytes, codes, bytes_eq, bytes_eq_iff, find_byte, is_space, length, get_elem?,
  take, drop, replicate, length-append, take-append-drop, length-take, length-drop,
  length-replicate, take-append, drop-append, take-append_le, drop-append_le, take_all, drop_all,
  drop-drop, take-drop, take-take, take-append_split, drop-append_split, take-replicate,
  drop-replicate,
}
use carf_lib.Shared.Decimal.{decimal}
use carf_lib.Shared.StdMap.{assign, bytes_key}
use carf_lib.Net.Buffer.{Buffer, append}

pub data StatusCode : Type 0 where
  unknown ok_200 moved_permanently_301 bad_request_400 not_found_404 : StatusCode

unfoldable pub code_of : StatusCode → ℕ
code_of StatusCode.unknown = 0
code_of StatusCode.ok_200 = 200
code_of StatusCode.moved_permanently_301 = 301
code_of StatusCode.bad_request_400 = 400
code_of StatusCode.not_found_404 = 404

pub record HttpResponse : Type 0 where
  pub headers : List (Bytes × Bytes)
  pub status_code : StatusCode
  pub status_message : Bytes
  pub close_connection : Bool
  pub body : Bytes

-- The constructor.
abbrev pub fresh : Bool → HttpResponse
fresh close = record {
  headers = [];
  status_code = StatusCode.unknown;
  status_message = [];
  close_connection = close;
  body = [];
}

abbrev pub set_status_code : HttpResponse → StatusCode → HttpResponse
set_status_code r code = record r { status_code = code }

abbrev pub set_status_message : HttpResponse → Bytes → HttpResponse
set_status_message r message = record r { status_message = message }

abbrev pub add_header : HttpResponse → Bytes → Bytes → HttpResponse
add_header r field value = record r { headers = assign field value r.headers }

abbrev pub set_body : HttpResponse → Bytes → HttpResponse
set_body r body = record r { body = body }

abbrev pub crlf : Bytes
crlf = 13 ∷ 10 ∷ []

-- `snprintf` into `char buf[32]`: what does not fit is cut off.
unfoldable pub snprintf_32 : Bytes → Bytes
snprintf_32 s = take 31 s

unfoldable pub append_headers : Buffer → List (Bytes × Bytes) → Option Buffer
append_headers output [] = some output
append_headers output ((field, value) ∷ rest) = do
  o1 ← append output field
  o2 ← append o1 (codes ": ")
  o3 ← append o2 value
  o4 ← append o3 crlf
  append_headers o4 rest

-- The two ways to end the connection line.
unfoldable pub append_connection : Buffer → HttpResponse → Option Buffer
append_connection output r =
    if r.close_connection then append output (codes "Connection: close" ++ crlf) else do
      o1 ←
          append output
            (snprintf_32 (codes "Content-Length: " ++ (decimal (length r.body) ++ crlf)))
      append o1 (codes "Connection: Keep-Alive" ++ crlf)

unfoldable pub append_to_buffer : HttpResponse → Buffer → Option Buffer
append_to_buffer r output = do
  o1 ←
      append output
        (snprintf_32 (codes "HTTP/1.1 " ++ (decimal (code_of r.status_code) ++ codes " ")))
  o2 ← append o1 r.status_message
  o3 ← append o2 crlf
  o4 ← append_connection o3 r
  o5 ← append_headers o4 r.headers
  o6 ← append o5 crlf
  append o6 r.body
