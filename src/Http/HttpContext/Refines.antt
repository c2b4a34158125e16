-- ===== src/Http/HttpContext/Refines.antt =====
-- `parseRequest` on a buffer sees its content only.
use carf_lib.Shared.{
  ℕ, zero, suc, ◌+◌, ◌≡◌, refl, ◌∙◌, inl, inr, Option, none, some, [], arith, ◌==◌, Bool-cases,
  Option-cases, Bytes, codes, length, drop, drop_all,
}
use carf_lib.Shared.Stoi.{ℤ, stoi}
use carf_lib.Net.Buffer.{
  Buffer, IsValid, contents, crlf_in, find_crlf, retrieve_all, readable_bytes,
}
use carf_lib.Net.Buffer.View.{
  length-contents, is_empty-length, contents-retrieve_len, retrieve_len-IsValid,
}
use carf_lib.Http.HttpRequest.{get_header}
use carf_lib.Http.HttpContext.{
  ParseState, HttpContext, Pass, again, stop, throws, take_request_line, take_body, Outcome, parsed,
  threw, hung, resume, is_length, pass, parse_loop, parse_request, body_pass, skip_crlf, line_of,
  past_line,
}
use carf_lib.Http.HttpContext.Text.{skip_text, text_body, text_pass, text_loop, parse_text}

-- What a pass over a buffer is as a pass over text.
abbrev pub view_pass : Pass Buffer → Pass Bytes
view_pass (again c b) = again c (contents b)
view_pass (stop ok c b) = stop ok c (contents b)
view_pass throws = throws

abbrev pub PassValid : Pass Buffer → Type 0
PassValid (again c b) = IsValid b
PassValid (stop ok c b) = IsValid b
PassValid throws = Unit {0}

abbrev pub view : Outcome Buffer → Outcome Bytes
view (parsed ok c b) = parsed ok c (contents b)
view threw = threw
view hung = hung

abbrev pub OutcomeValid : Outcome Buffer → Type 0
OutcomeValid (parsed ok c b) = IsValid b
OutcomeValid _ = Unit {0}

take_request_line-view :
    (c : HttpContext) (buf : Buffer) (line : Bytes) (rest : Buffer)
    → IsValid buf
    → IsValid rest
    → (view_pass (take_request_line c buf line rest)
        ≡ take_request_line c (contents buf) line (contents rest))
      × PassValid (take_request_line c buf line rest)
unfolding take_request_line
take_request_line-view c buf line rest v w = ground arith

past_line-view :
    (buf : Buffer) (i : ℕ)
    → IsValid buf
    → (contents (past_line buf i) ≡ drop (i + 2) (contents buf)) × IsValid (past_line buf i)
past_line-view buf i v = (contents-retrieve_len buf (i + 2) v, retrieve_len-IsValid buf (i + 2) v)

skip_crlf-view :
    (buf : Buffer)
    → IsValid buf
    → (contents (skip_crlf buf) ≡ skip_text (contents buf)) × IsValid (skip_crlf buf)
unfolding skip_crlf skip_text find_crlf
skip_crlf-view buf v = elim (Option-cases (crlf_in (contents buf))) [
  | inl e ↦ rw (e, skip_crlf, skip_text) (refl, v)
  | inr (i, e) ↦ rw (e, skip_crlf, skip_text) (past_line-view buf i v)
]

-- `retrieveAll()` leaves nothing.
retrieve_all-view :
    (buf : Buffer)
    → IsValid buf
    → (contents (retrieve_all buf).1 ≡ []) × IsValid (retrieve_all buf).1
unfolding retrieve_all
retrieve_all-view buf v = (
  contents-retrieve_len buf (readable_bytes buf) v
      ∙ drop_all (readable_bytes buf) (contents buf) (omega (arith, length-contents buf v)),
  retrieve_len-IsValid buf (readable_bytes buf) v,
)

body_pass-view :
    (c : HttpContext) (buf : Buffer) (n : Option ℤ)
    → IsValid buf
    → (view_pass (body_pass c buf n) ≡ text_body c (contents buf) n) × PassValid (body_pass c buf n)
unfolding body_pass text_body take_body
body_pass-view c buf none v = (refl, tt)
body_pass-view c buf (some n) v =
    let skipped = skip_crlf-view buf v in
    let emptied = retrieve_all-view (skip_crlf buf) skipped.1 in
    rw (is_empty-length buf v) (elim (Bool-cases (is_length n 0)) [
      | inl e ↦ rw e (refl, v)
      | inr e ↦ rw e (elim (Bool-cases (length (contents buf) == 0)) [
        | inl f ↦ rw f (refl, v)
        | inr f ↦ rw (f, skipped.0, emptied.0) (refl, emptied.1)
      ])
    ])

pass-view :
    (st : ParseState) (c : HttpContext) (buf : Buffer)
    → IsValid buf
    → (view_pass (pass st c buf) ≡ text_pass st c (contents buf)) × PassValid (pass st c buf)
unfolding pass text_pass find_crlf
pass-view ParseState.expect_request_line c buf v = elim (Option-cases (crlf_in (contents buf))) [
  | inl e ↦ rw (e, view_pass, pass, text_pass, PassValid) (refl, v)
  | inr (i, e) ↦
      let past = past_line-view buf i v in
      rw (e, ← past.0, view_pass, pass, text_pass, PassValid)
        (take_request_line-view c buf (line_of buf i) (past_line buf i) v past.1)
]
pass-view ParseState.expect_headers c buf v = elim (Option-cases (crlf_in (contents buf))) [
  | inl e ↦ rw (e, view_pass, pass, text_pass, PassValid) (refl, v)
  | inr (i, e) ↦
      let past = past_line-view buf i v in
      rw (e, past.0, view_pass, pass, text_pass, PassValid) (refl, past.1)
]
pass-view ParseState.expect_body c buf v =
    body_pass-view c buf (stoi (get_header c.request (codes "Content-Length"))) v
pass-view ParseState.got_all c buf v = (refl, v)

resume-view :
    (p : Pass Buffer) (k : HttpContext → Buffer → Outcome Buffer)
    (l : HttpContext → Bytes → Outcome Bytes)
    → PassValid p
    → ((c : HttpContext) (b : Buffer)
        → IsValid b
        → (view (k c b) ≡ l c (contents b)) × OutcomeValid (k c b))
    → (view (resume p k) ≡ resume (view_pass p) l) × OutcomeValid (resume p k)
resume-view (again c b) k l v h = h c b v
resume-view (stop ok c b) k l v h = (refl, v)
resume-view throws k l v h = (refl, tt)

loop-view :
    (fuel : ℕ) (c : HttpContext) (buf : Buffer)
    → IsValid buf
    → (view (parse_loop fuel c buf) ≡ text_loop fuel c (contents buf))
      × OutcomeValid (parse_loop fuel c buf)
unfolding parse_loop text_loop
loop-view zero c buf v = (refl, tt)
loop-view (suc fuel) c buf v =
    let seen = pass-view c.parse_state c buf v in
    rw (← seen.0) (resume-view (pass c.parse_state c buf) _ _ seen.1 (loop-view fuel))

-- On a valid buffer `parseRequest` is the parser over the buffer's content: it ends the same way, in
-- the same state, with the same bytes left, whatever the indices and the vector are, and leaves the
-- buffer valid.
pub parse_request-view :
    (c : HttpContext) (buf : Buffer)
    → IsValid buf
    → (view (parse_request c buf) ≡ parse_text c (contents buf))
      × OutcomeValid (parse_request c buf)
unfolding parse_request parse_text
parse_request-view c buf v =
    rw (length-contents buf v) (loop-view (suc (suc (readable_bytes buf))) c buf v)
