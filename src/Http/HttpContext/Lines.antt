-- ===== src/Http/HttpContext/Lines.antt =====
-- The lines of a request head, printed and read back one by one.
use carf_lib.Shared.{
  ℕ, suc, ◌+◌, ◌≡◌, refl, sym, ap, ◌∙◌, true, false, none, some, [], ◌∷◌, ◌++◌, append-nil, arith,
  ◌==◌, Bytes, codes, bytes_eq, find_byte, length, take, drop, take-append, drop-append, drop-drop,
}
use carf_lib.Shared.StdMap.{bytes_key}
use carf_lib.Net.Buffer.{crlf_in, starts_crlf}
use carf_lib.Net.Buffer.Search.{crlf_in_complete}
use carf_lib.Http.HttpRequest.{HttpRequest, Version, set_method, set_version}
use carf_lib.Http.HttpContext.{
  ParseState, HttpContext, again, take_request_line, take_header, process_request_line,
  process_target, set_target, set_version_text,
}
use carf_lib.Http.HttpContext.Text.{text_pass}

-- The byte `c` does not stand in the text.
abbrev pub Without : ℕ → Bytes → Type 0
Without c [] = Unit {0}
Without c (x ∷ xs) = ((x == c) ≡ false) × Without c xs

pub Without-append : (c : ℕ) (a b : Bytes) → Without c a → Without c b → Without c (a ++ b)
Without-append c [] b h k = k
Without-append c (x ∷ a) b h k = (h.0, Without-append c a b h.1 k)

pub find_byte_first :
    (c : ℕ) (a b : Bytes) → Without c a → find_byte c (a ++ c ∷ b) ≡ some (length a)
unfolding find_byte
find_byte_first c [] b h = ground arith
find_byte_first c (x ∷ a) b h = rw (h.0, find_byte_first c a b h.1)

find_byte-none : (c : ℕ) (a : Bytes) → Without c a → find_byte c a ≡ none
unfolding find_byte
find_byte-none c [] h = refl
find_byte-none c (x ∷ a) h = rw (h.0, find_byte-none c a h.1)

pub crlf_in-none : (a : Bytes) → Without 13 a → crlf_in a ≡ none
unfolding crlf_in starts_crlf
crlf_in-none [] h = refl
crlf_in-none (x ∷ []) h = refl
crlf_in-none (x ∷ y ∷ a) h = rw (h.0, crlf_in-none (y ∷ a) h.1)

pub drop_past : (c : ℕ) (a b : Bytes) → drop (suc (length a)) (a ++ c ∷ b) ≡ b
drop_past c [] b = refl
drop_past c (x ∷ a) b = drop_past c a b

abbrev pub version_text : Version → Bytes
version_text Version.http10 = codes "HTTP/1.0"
version_text _ = codes "HTTP/1.1"

abbrev pub known_version : Version → Version
known_version Version.http10 = Version.http10
known_version _ = Version.http11

set_version_text_lem :
    (r : HttpRequest) (v : Version)
    → set_version_text r (version_text v) ≡ (set_version r (known_version v), true)
unfolding set_version_text bytes_eq
set_version_text_lem r Version.http10 = refl
set_version_text_lem r _ = refl

-- A query, with its question mark, or nothing.
abbrev pub IsQuery : Bytes → Type 0
IsQuery [] = Unit {0}
IsQuery (c ∷ q) = c ≡ b'?'

set_target-query :
    (r : HttpRequest) (path q : Bytes)
    → Without b'?' path
    → set_target r (path ++ b'?' ∷ q) ≡ record r { path = path; query = b'?' ∷ q }
unfolding set_target
set_target-query r path q h = rw (
  find_byte_first b'?' path q h,
  take-append path (b'?' ∷ q),
  drop-append path (b'?' ∷ q),
  set_target,
)

pub set_target_lem :
    (r : HttpRequest) (path query : Bytes)
    → Without b'?' path
    → IsQuery query
    → r.query ≡ []
    → set_target r (path ++ query) ≡ record r { path = path; query = query }
unfolding set_target
set_target_lem r path [] h k e =
    ap (set_target r) (append-nil path)
    ∙ rw (find_byte-none b'?' path h, set_target) (λ i. record r { path = path; query = e i })
set_target_lem r path (c ∷ q) h k e =
    ap (λ d. set_target r (path ++ d ∷ q)) k
    ∙ set_target-query r path q h
    ∙ ap (λ d. record r { path = path; query = d ∷ q }) (sym k)

pub process_request_line_lem :
    (r : HttpRequest) (method target : Bytes) (v : Version)
    → Without b' ' method
    → Without b' ' target
    → process_request_line r (method ++ b' ' ∷ (target ++ b' ' ∷ version_text v))
      ≡ (set_version (set_target (set_method r method).0 target) (known_version v), true)
unfolding process_request_line process_target set_method
process_request_line_lem r method target v h k =
    let rest : Bytes = target ++ b' ' ∷ version_text v in
    rw
      (
        find_byte_first b' ' method rest h,
        take-append method (b' ' ∷ rest),
        drop_past b' ' method rest,
        process_request_line,
      )
      (rw
        (
          find_byte_first b' ' target (version_text v) k,
          take-append target (b' ' ∷ version_text v),
          drop_past b' ' target (version_text v),
          process_target,
        )
        (set_version_text_lem _ v))

-- A line that holds no CR is taken whole, with the CR LF behind it.
abbrev pub line_end : Bytes → Bytes
line_end rest = 13 ∷ 10 ∷ rest

take_line :
    (line rest : Bytes)
    → Without 13 line
    → (crlf_in (line ++ line_end rest) ≡ some (length line))
      × (take (length line) (line ++ line_end rest) ≡ line)
      × (drop (length line + 2) (line ++ line_end rest) ≡ rest)
take_line line rest h = (
  crlf_in_complete line rest (crlf_in-none line h),
  take-append line (line_end rest),
  sym (drop-drop 2 (length line) (length line + 2) (line ++ line_end rest) (omega arith))
      ∙ ap (drop 2) (drop-append line (line_end rest)),
)

-- The pass that takes a request line.
pub request_line_pass :
    (c : HttpContext) (line rest : Bytes) (r : HttpRequest)
    → Without 13 line
    → process_request_line c.request line ≡ (r, true)
    → text_pass ParseState.expect_request_line c (line ++ line_end rest)
      ≡ again (record { request = r; parse_state = ParseState.expect_headers }) rest
unfolding text_pass take_request_line
request_line_pass c line rest r h e =
    let (found, front, back) = take_line line rest h in rw (found, front, back, text_pass) (rw e)

pub header_pass :
    (c : HttpContext) (line rest : Bytes)
    → Without 13 line
    → text_pass ParseState.expect_headers c (line ++ line_end rest)
      ≡ again (take_header c line) rest
unfolding text_pass
header_pass c line rest h =
    let (found, front, back) = take_line line rest h in rw (found, front, back, text_pass)
