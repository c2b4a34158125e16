-- ===== src/Http/HttpContext/Prefix.antt =====
-- A request head of which the end has not arrived.
use carf_lib.Shared.{
  ◌+◌, ◌<◌, ◌≡◌, refl, sym, ap, ap₂, ◌∙◌, subst, ◌⊎◌, inl, inr, true, none, List, [], ◌∷◌, ◌++◌,
  arith, Option-cases, some_eq, Bytes, length, take, drop, length-append, take-append, drop-append,
  take-append_le, drop-append_le, drop-drop,
}
use carf_lib.Shared.StdMap.{assign, bytes_key}
use carf_lib.Net.Buffer.{crlf_in}
use carf_lib.Net.Buffer.Search.{crlf_in_bound, crlf_in_sound, crlf_in_complete, crlf_in-append}
use carf_lib.Http.HttpRequest.{HttpRequest}
use carf_lib.Http.HttpContext.{ParseState, HttpContext, stop, again, resume, initial}
use carf_lib.Http.HttpContext.Text.{text_pass, parse_text}
use carf_lib.Http.HttpContext.Terminates.{parse_text_lem}
use carf_lib.Http.HttpContext.Chunks.{IsLine, InHead}
use carf_lib.Http.HttpContext.Lines.{
  Without, Without-append, crlf_in-none, line_end, request_line_pass, header_pass,
}
use carf_lib.Http.HttpContext.RoundTrip.{
  Head, header_lines, request_line, render, HeadersOk, IsPrintable, request_of, take_header_lem,
  step_on, in_headers, process-request_line,
}

-- A text that goes on with a line, its end and `rest` holds no CR LF, or the whole line and its end.
prefix-cases :
    (p t line rest : Bytes)
    → Without 13 line
    → p ++ t ≡ line ++ line_end rest
    → (crlf_in p ≡ none) ⊎ ((p' : Bytes) × (p ≡ line ++ line_end p') × (p' ++ t ≡ rest))
prefix-cases p t line rest h e = elim (Option-cases (crlf_in p)) [
  | inl absent ↦ inl absent
  | inr (i, found) ↦
      let at : i ≡ length line = some_eq (
        sym (crlf_in-append p t i found)
        ∙ ap crlf_in e
        ∙ crlf_in_complete line rest (crlf_in-none line h)) in
      let bound = crlf_in_bound p i found in
      let front : take i p ≡ line =
        sym (take-append_le i p t (omega arith))
        ∙ ap₂ take at e
        ∙ take-append line (line_end rest) in
      let back : drop (i + 2) p ++ t ≡ rest =
        sym (drop-append_le (i + 2) p t bound)
        ∙ ap₂ drop (ap (λ n. n + 2) at) e
        ∙ sym (drop-drop 2 (length line) (length line + 2) (line ++ line_end rest) (omega arith))
        ∙ ap (drop 2) (drop-append line (line_end rest)) in
      inr (
        drop (i + 2) p,
        (crlf_in_sound p i found).0 ∙ ap (λ l. l ++ line_end (drop (i + 2) p)) front,
        back,
      )
]

waits :
    (st : ParseState) (c : HttpContext) (p : Bytes)
    → IsLine st
    → crlf_in p ≡ none
    → text_pass st c p ≡ stop true c p
unfolding text_pass
waits ParseState.expect_request_line c p l e = rw (e, text_pass) refl
waits ParseState.expect_headers c p l e = rw (e, text_pass) refl
waits ParseState.expect_body c p l e = absurd l
waits ParseState.got_all c p l e = absurd l

waits-InHead :
    (c : HttpContext) (p : Bytes)
    → IsLine c.parse_state
    → crlf_in p ≡ none
    → InHead (parse_text c p)
waits-InHead c p l e =
    subst InHead
      (sym (parse_text_lem c p ∙ ap (λ q. resume q parse_text) (waits c.parse_state c p l e))) l

headers-InHead :
    (hs : List (Bytes × Bytes)) (r : HttpRequest) (p t rest : Bytes)
    → HeadersOk hs
    → p ++ t ≡ header_lines hs (line_end rest)
    → length rest < length t
    → InHead (parse_text (in_headers r) p)
headers-InHead [] r p t rest ok e h = elim (prefix-cases p t [] rest tt e) [
  | inl absent ↦ waits-InHead (in_headers r) p tt absent
  | inr (p', _, same) ↦ absurd (omega (arith, length-append p' t, ap length same))
]
headers-InHead ((f, v) ∷ hs) r p t rest ok e h =
    let line = f ++ b':' ∷ b' ' ∷ v in
    let clean : Without 13 line = Without-append 13 f (b':' ∷ b' ' ∷ v) ok.0 (refl, (refl, ok.2)) in
    elim (prefix-cases p t line (header_lines hs (line_end rest)) clean e) [
      | inl absent ↦ waits-InHead (in_headers r) p tt absent
      | inr (p', whole, same) ↦
          let r' : HttpRequest = record r { headers = assign f v r.headers } in
          let on = step_on (in_headers r) (in_headers r') (line ++ line_end p') p' (
            header_pass (in_headers r) line p' clean
            ∙ ap (λ c. again c p') (take_header_lem (in_headers r) f v ok.1 ok.3)) in
          subst InHead (sym (ap (parse_text (in_headers r)) whole ∙ on))
            (headers-InHead hs r' p' t rest ok.4 same h)
    ]

-- While more is to come than what stands behind the head, a fresh parser takes lines.
pub render-InHead :
    (q : Head) (p t rest : Bytes)
    → IsPrintable q
    → p ++ t ≡ render q rest
    → length rest < length t
    → InHead (parse_text initial p)
render-InHead q p t rest k e h =
    elim (prefix-cases p t (request_line q) (header_lines q.headers (line_end rest)) k.line e) [
      | inl absent ↦ waits-InHead initial p tt absent
      | inr (p', whole, same) ↦
          let r : HttpRequest = record (request_of q) { headers = [] } in
          let on =
            step_on initial (in_headers r) (request_line q ++ line_end p') p'
              (request_line_pass initial (request_line q) p' r k.line (process-request_line q k)) in
          subst InHead (sym (ap (parse_text initial) whole ∙ on))
            (headers-InHead q.headers r p' t rest k.headers_ok same h)
    ]
