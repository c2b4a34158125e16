-- ===== src/Http/HttpContext/Body.antt =====
-- The body of a POST request: what `kExpectBody` takes for it.
use carf_lib.Shared.{
  ℕ, suc, ◌+◌, ◌<◌, ◌≡◌, sym, ap, ◌∙◌, inl, inr, true, false, Option, none, some, [], ◌∷◌, ◌++◌,
  arith, ◌==◌, if◌then◌else◌, Bool-cases, Bytes, codes, length, drop, length-append, drop-append,
  drop-drop,
}
use carf_lib.Shared.Stoi.{ℤ, pos, stoi, stoi_empty}
use carf_lib.Shared.StdMap.{bytes_key}
use carf_lib.Net.Buffer.{Buffer, IsValid, contents, crlf_in}
use carf_lib.Net.Buffer.Search.{crlf_in_complete}
use carf_lib.Http.HttpRequest.{HttpRequest, Method, method_of, append_body, body_length, get_header}
use carf_lib.Http.HttpContext.{
  ParseState, HttpContext, stop, take_body, initial, parsed, threw, resume, after_headers,
  parse_request,
}
use carf_lib.Http.HttpContext.Refines.{view, parse_request-view}
use carf_lib.Http.HttpContext.Text.{text_pass, text_body, skip_text, parse_text}
use carf_lib.Http.HttpContext.Terminates.{parse_text_lem}
use carf_lib.Http.HttpContext.RoundTrip.{Head, IsPrintable, render, request_of, parse_text-render}

abbrev pub announced : HttpRequest → Option ℤ
announced r = stoi (get_header r (codes "Content-Length"))

-- The state behind a body of the given length, of which `n` bytes were announced.
abbrev pub body_state : ℕ → ℕ → ParseState
body_state len n = if len == n then ParseState.got_all else ParseState.expect_body

abbrev pub due : HttpRequest → HttpContext
due r = record { request = r; parse_state = ParseState.expect_body }

zero-ne-suc : (n : ℕ) → (0 == suc n) ≡ false
zero-ne-suc n = ground arith

suc-ne-zero : (n : ℕ) → (suc n == 0) ≡ false
suc-ne-zero n = ground arith

text_body_empty : (c : HttpContext) (n : ℕ) → text_body c [] (some (pos (suc n))) ≡ stop true c []
unfolding text_body
text_body_empty c n = rw (zero-ne-suc n)

text_body_input :
    (c : HttpContext) (n x : ℕ) (s : Bytes)
    → text_body c (x ∷ s) (some (pos (suc n))) ≡ take_body c (pos (suc n)) (skip_text (x ∷ s)) []
unfolding text_body
text_body_input c n x s = rw (zero-ne-suc n, suc-ne-zero (length s))

-- Nothing is left to take.
parse_text_nothing :
    (r : HttpRequest) (n len : ℕ)
    → announced r ≡ some (pos (suc n))
    → parse_text (record { request = r; parse_state = body_state len (suc n) }) []
      ≡ parsed true (record { request = r; parse_state = body_state len (suc n) }) []
unfolding text_pass
parse_text_nothing r n len e = elim (Bool-cases (len == suc n)) [
  | inl f ↦ rw f (parse_text_lem _ [])
  | inr f ↦ rw f (
      parse_text_lem (due r) []
      ∙ ap (λ m. resume (text_body (due r) [] m) parse_text) e
      ∙ ap (λ p. resume p parse_text) (text_body_empty (due r) n))
]

-- All input at hand is the body, less what stands before the first CR LF and the CR LF.
parse_text_body :
    (r : HttpRequest) (n : ℕ) (x : ℕ) (s : Bytes)
    → announced r ≡ some (pos (suc n))
    → let r' = append_body r (skip_text (x ∷ s)) in
      parse_text (due r) (x ∷ s)
      ≡ parsed true (record { request = r'; parse_state = body_state (body_length r') (suc n) }) []
unfolding text_pass take_body get_header
parse_text_body r n x s e =
    parse_text_lem (due r) (x ∷ s)
    ∙ ap (λ m. resume (text_body (due r) (x ∷ s) m) parse_text) e
    ∙ ap (λ p. resume p parse_text) (text_body_input (due r) n x s)
    ∙ parse_text_nothing (append_body r (skip_text (x ∷ s))) n
        (body_length (append_body r (skip_text (x ∷ s)))) e

-- A call of `parseRequest` with the body due, `n > 0` bytes announced and input at hand takes all of
-- the input, whatever was announced: what stands behind its first CR LF, or all of it if it has none,
-- is appended to the body, the buffer is left empty, and the request is done exactly if the body then
-- has `n` bytes.
pub parse_request_body :
    (r : HttpRequest) (n x : ℕ) (s : Bytes) (buf : Buffer)
    → announced r ≡ some (pos (suc n))
    → IsValid buf
    → contents buf ≡ x ∷ s
    → let r' = append_body r (skip_text (x ∷ s)) in
      view (parse_request (due r) buf)
      ≡ parsed true (record { request = r'; parse_state = body_state (body_length r') (suc n) }) []
parse_request_body r n x s buf e v h =
    (parse_request-view (due r) buf v).0 ∙ ap (parse_text (due r)) h ∙ parse_text_body r n x s e

abbrev pub with_body : HttpRequest → Bytes → HttpRequest
with_body r s = record r { body = s }

skip_text-none : (s : Bytes) → crlf_in s ≡ none → skip_text s ≡ s
unfolding skip_text
skip_text-none s e = rw (e, skip_text)

skip_text_crlf : (a b : Bytes) → crlf_in a ≡ none → skip_text (a ++ 13 ∷ 10 ∷ b) ≡ b
unfolding skip_text
skip_text_crlf a b e =
    rw (crlf_in_complete a b e, skip_text)
      (sym (drop-drop 2 (length a) (length a + 2) (a ++ 13 ∷ 10 ∷ b) (omega arith))
        ∙ ap (drop 2) (drop-append a (13 ∷ 10 ∷ b)))

parse_text-post :
    (q : Head) (x : ℕ) (s : Bytes) (n : ℕ) (stored : Bytes)
    → IsPrintable q
    → method_of q.method ≡ Method.post
    → announced (request_of q) ≡ some (pos (suc n))
    → skip_text (x ∷ s) ≡ stored
    → parse_text initial (render q (x ∷ s))
      ≡ parsed true
          (record {
            request = with_body (request_of q) stored;
            parse_state = body_state (length stored) (suc n);
          })
          []
unfolding after_headers
parse_text-post q x s n stored p m e k =
    parse_text-render q (x ∷ s) p
    ∙ ap
        (λ t. parse_text (record { request = request_of q; parse_state = after_headers t }) (x ∷ s))
        m
    ∙ parse_text_body (request_of q) n x s e
    ∙ ap
        (λ t.
          parsed true
            (record {
              request = with_body (request_of q) t;
              parse_state = body_state (length t) (suc n);
            })
            [])
        k

body_state_same : (n : ℕ) → body_state n n ≡ ParseState.got_all
body_state_same n = ground arith

body_state_other : (m n : ℕ) → m < n → body_state m n ≡ ParseState.expect_body
body_state_other m n h = ground arith

-- A printable POST head that announces the length of the body behind it, where the body is not empty
-- and has no CR LF in it, is read in one call, body and all, and the buffer is empty then.
pub parse_request-post :
    (q : Head) (x : ℕ) (s : Bytes) (buf : Buffer)
    → IsPrintable q
    → method_of q.method ≡ Method.post
    → announced (request_of q) ≡ some (pos (length (x ∷ s)))
    → crlf_in (x ∷ s) ≡ none
    → IsValid buf
    → contents buf ≡ render q (x ∷ s)
    → view (parse_request initial buf)
      ≡ parsed true
          (record { request = with_body (request_of q) (x ∷ s); parse_state = ParseState.got_all })
          []
parse_request-post q x s buf p m e k v h =
    (parse_request-view initial buf v).0
    ∙ ap (parse_text initial) h
    ∙ parse_text-post q x s (length s) (x ∷ s) p m e (skip_text-none (x ∷ s) k)
    ∙ ap
        (λ st.
          parsed true (record { request = with_body (request_of q) (x ∷ s); parse_state = st }) [])
        (body_state_same (length (x ∷ s)))

-- But where the body has a CR LF in it, everything up to the first one is lost: of `a`, CR LF, `b`,
-- announced at their full length, only `b` is stored, the buffer is empty, and the request is not done.
pub parse_request-post_crlf :
    (q : Head) (x : ℕ) (a b : Bytes) (buf : Buffer)
    → IsPrintable q
    → method_of q.method ≡ Method.post
    → announced (request_of q) ≡ some (pos (length ((x ∷ a) ++ 13 ∷ 10 ∷ b)))
    → crlf_in (x ∷ a) ≡ none
    → IsValid buf
    → contents buf ≡ render q ((x ∷ a) ++ 13 ∷ 10 ∷ b)
    → view (parse_request initial buf) ≡ parsed true (due (with_body (request_of q) b)) []
parse_request-post_crlf q x a b buf p m e k v h =
    (parse_request-view initial buf v).0
    ∙ ap (parse_text initial) h
    ∙ parse_text-post q x (a ++ 13 ∷ 10 ∷ b) (length (a ++ 13 ∷ 10 ∷ b)) b p m e
        (skip_text_crlf (x ∷ a) b k)
    ∙ ap (λ st. parsed true (record { request = with_body (request_of q) b; parse_state = st }) [])
        (body_state_other (length b) (suc (length (a ++ 13 ∷ 10 ∷ b)))
          (omega (arith, length-append a (13 ∷ 10 ∷ b))))

-- A printable POST head with no Content-Length among its headers, or an empty one, makes
-- `parseRequest` throw, whatever follows it.
pub parse_request-no_length :
    (q : Head) (rest : Bytes) (buf : Buffer)
    → IsPrintable q
    → method_of q.method ≡ Method.post
    → get_header (request_of q) (codes "Content-Length") ≡ []
    → IsValid buf
    → contents buf ≡ render q rest
    → view (parse_request initial buf) ≡ threw
unfolding after_headers text_pass text_body
parse_request-no_length q rest buf p m e v h =
    (parse_request-view initial buf v).0
    ∙ ap (parse_text initial) h
    ∙ parse_text-render q rest p
    ∙ ap (λ t. parse_text (record { request = request_of q; parse_state = after_headers t }) rest) m
    ∙ parse_text_lem (due (request_of q)) rest
    ∙ ap (λ n. resume (text_body (due (request_of q)) rest n) parse_text) (ap stoi e ∙ stoi_empty)
