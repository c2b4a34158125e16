-- ===== src/Http/HttpContext/Chunks.antt =====
-- Input that arrives in several reads.
use carf_lib.Shared.{
  ℕ, zero, suc, ◌+◌, ◌≡◌, refl, sym, ap, ap₂, ◌∙◌, ◌⊎◌, inl, inr, true, false, Option, none, some,
  ◌++◌, arith, ◌==◌, Bool-cases, Option-cases, Bytes, codes, length, take, drop, take-append_le,
  drop-append_le,
}
use carf_lib.Shared.Stoi.{ℤ, stoi}
use carf_lib.Net.Buffer.{Buffer, IsValid, contents, crlf_in}
use carf_lib.Net.Buffer.Search.{crlf_in_bound, crlf_in-append}
use carf_lib.Http.HttpRequest.{get_header}
use carf_lib.Http.HttpContext.{
  ParseState, HttpContext, Pass, again, stop, throws, take_request_line, take_body, Outcome, parsed,
  threw, hung, resume, is_length, process_request_line, parse_request,
}
use carf_lib.Http.HttpContext.Refines.{view, parse_request-view}
use carf_lib.Http.HttpContext.Text.{skip_text, text_body, text_pass, text_loop, parse_text}
use carf_lib.Http.HttpContext.Terminates.{parse_text_lem}

-- The states in which the parser takes lines.
abbrev pub IsLine : ParseState → Type 0
IsLine ParseState.expect_request_line = Unit {0}
IsLine ParseState.expect_headers = Unit {0}
IsLine _ = ⊥

-- The outcome is a request that still takes lines.
abbrev pub InHead : Outcome Bytes → Type 0
InHead (parsed true c s) = IsLine c.parse_state
InHead _ = ⊥

-- What the outcome does with more input `t`.
abbrev pub continue_with : Outcome Bytes → Bytes → Outcome Bytes
continue_with (parsed ok c s) t = parse_text c (s ++ t)
continue_with threw t = threw
continue_with hung t = hung

-- The pass over `s` is the pass over `s ++ t`, but for the input left.
abbrev pub Extends : Bytes → Pass Bytes → Pass Bytes → Type 0
Extends t (again c s) q = q ≡ again c (s ++ t)
Extends t _ q = Unit {0}

take_request_line-Extends :
    (c : HttpContext) (s u line rest t : Bytes)
    → Extends t (take_request_line c s line rest) (take_request_line c u line (rest ++ t))
unfolding take_request_line
take_request_line-Extends c s u line rest t =
    elim (Bool-cases (process_request_line c.request line).1) [
      | inl e ↦ rw (e, take_request_line) refl
      | inr e ↦ rw (e, take_request_line) tt
    ]

cut-append :
    (s t : Bytes) (i : ℕ)
    → crlf_in s ≡ some i
    → (take i (s ++ t) ≡ take i s) × (drop (i + 2) (s ++ t) ≡ drop (i + 2) s ++ t)
cut-append s t i e = (
  take-append_le i s t (omega (arith, crlf_in_bound s i e)),
  drop-append_le (i + 2) s t (crlf_in_bound s i e),
)

text_pass-Extends :
    (st : ParseState) (c : HttpContext) (s t : Bytes)
    → IsLine st
    → Extends t (text_pass st c s) (text_pass st c (s ++ t))
unfolding text_pass
text_pass-Extends ParseState.expect_request_line c s t h = elim (Option-cases (crlf_in s)) [
  | inl e ↦ rw (e, text_pass, Extends) tt
  | inr (i, e) ↦
      let cut = cut-append s t i e in
      rw (e, crlf_in-append s t i e, cut.0, cut.1, text_pass, Extends)
        (take_request_line-Extends c s (s ++ t) (take i s) (drop (i + 2) s) t)
]
text_pass-Extends ParseState.expect_headers c s t h = elim (Option-cases (crlf_in s)) [
  | inl e ↦ rw (e, text_pass, Extends) tt
  | inr (i, e) ↦
      let cut = cut-append s t i e in
      rw (e, crlf_in-append s t i e, cut.0, cut.1, text_pass, Extends) refl
]
text_pass-Extends ParseState.expect_body c s t h = absurd h
text_pass-Extends ParseState.got_all c s t h = absurd h

-- Once the body is due, no pass leads back to the lines.
abbrev Past : Pass Bytes → Type 0
Past (again c s) = ¬ IsLine c.parse_state
Past (stop ok c s) = ¬ IsLine c.parse_state
Past throws = Unit {0}

text_body-Past :
    (c : HttpContext) (s : Bytes) (n : Option ℤ) → ¬ IsLine c.parse_state → Past (text_body c s n)
unfolding text_body take_body
text_body-Past c s none h = tt
text_body-Past c s (some n) h = elim (Bool-cases (is_length n 0)) [
  | inl e ↦ rw e (λ x. x)
  | inr e ↦ rw e (elim (Bool-cases (length s == 0)) [
    | inl f ↦ rw f h
    | inr f ↦ rw f (elim (Bool-cases (is_length n (length (c.request.body ++ skip_text s)))) [
      | inl g ↦ rw g (λ x. x)
      | inr g ↦ rw g h
    ])
  ])
]

text_pass-Past :
    (st : ParseState) (c : HttpContext) (s : Bytes)
    → c.parse_state ≡ st
    → ¬ IsLine st
    → Past (text_pass st c s)
unfolding text_pass
text_pass-Past ParseState.expect_request_line c s e h = absurd (h tt)
text_pass-Past ParseState.expect_headers c s e h = absurd (h tt)
text_pass-Past ParseState.expect_body c s e h =
    text_body-Past c s (stoi (get_header c.request (codes "Content-Length"))) (rw e h)
text_pass-Past ParseState.got_all c s e h = rw e h

resume-InHead :
    (p : Pass Bytes) (k : HttpContext → Bytes → Outcome Bytes)
    → Past p
    → ((c : HttpContext) (s : Bytes) → ¬ IsLine c.parse_state → ¬ InHead (k c s))
    → ¬ InHead (resume p k)
resume-InHead (again c s) k h ih = ih c s h
resume-InHead (stop true c s) k h ih = h
resume-InHead (stop false c s) k h ih = λ x. x
resume-InHead throws k h ih = λ x. x

text_loop-InHead :
    (fuel : ℕ) (c : HttpContext) (s : Bytes)
    → ¬ IsLine c.parse_state
    → ¬ InHead (text_loop fuel c s)
unfolding text_loop
text_loop-InHead zero c s h = λ x. x
text_loop-InHead (suc fuel) c s h =
    resume-InHead (text_pass c.parse_state c s) (text_loop fuel)
      (text_pass-Past c.parse_state c s refl h) (text_loop-InHead fuel)

-- A pass that stops for more input has changed nothing.
abbrev Stays : HttpContext → Bytes → Pass Bytes → Type 0
Stays c s (stop true c' s') = (c' ≡ c) × (s' ≡ s)
Stays c s _ = Unit {0}

text_pass-Stays :
    (st : ParseState) (c : HttpContext) (s : Bytes) → IsLine st → Stays c s (text_pass st c s)
unfolding text_pass take_request_line
text_pass-Stays ParseState.expect_request_line c s h = elim (Option-cases (crlf_in s)) [
  | inl e ↦ rw (e, text_pass, Stays) (refl, refl)
  | inr (i, e) ↦
      rw (e, text_pass, Stays)
        (elim (Bool-cases (process_request_line c.request (take i s)).1) [
          | inl ok ↦ rw ok tt
          | inr bad ↦ rw bad tt
        ])
]
text_pass-Stays ParseState.expect_headers c s h = elim (Option-cases (crlf_in s)) [
  | inl e ↦ rw (e, text_pass, Stays) (refl, refl)
  | inr (i, e) ↦ rw (e, text_pass, Stays) tt
]
text_pass-Stays ParseState.expect_body c s h = absurd h
text_pass-Stays ParseState.got_all c s h = absurd h

resume-continue :
    (p q : Pass Bytes) (k : HttpContext → Bytes → Outcome Bytes) (c : HttpContext) (s t : Bytes)
    → Extends t p q
    → Stays c s p
    → parse_text c (s ++ t) ≡ resume q parse_text
    → ((c : HttpContext) (s : Bytes)
        → InHead (k c s)
        → continue_with (k c s) t ≡ parse_text c (s ++ t))
    → InHead (resume p k)
    → continue_with (resume p k) t ≡ parse_text c (s ++ t)
resume-continue (again c1 s1) q k c s t x y e ih h =
    ih c1 s1 h ∙ sym (e ∙ ap (λ r. resume r parse_text) x)
resume-continue (stop true c1 s1) q k c s t x y e ih h = ap₂ (λ d u. parse_text d (u ++ t)) y.0 y.1
resume-continue (stop false c1 s1) q k c s t x y e ih h = absurd h
resume-continue throws q k c s t x y e ih h = absurd h

IsLine-dec : (st : ParseState) → IsLine st ⊎ (¬ IsLine st)
IsLine-dec ParseState.expect_request_line = inl tt
IsLine-dec ParseState.expect_headers = inl tt
IsLine-dec ParseState.expect_body = inr (λ x. x)
IsLine-dec ParseState.got_all = inr (λ x. x)

text_loop-continue :
    (fuel : ℕ) (c : HttpContext) (s t : Bytes)
    → InHead (text_loop fuel c s)
    → continue_with (text_loop fuel c s) t ≡ parse_text c (s ++ t)
unfolding text_loop
text_loop-continue zero c s t h = absurd h
text_loop-continue (suc fuel) c s t h = elim (IsLine-dec c.parse_state) [
  | inl line ↦
      resume-continue (text_pass c.parse_state c s) (text_pass c.parse_state c (s ++ t))
        (text_loop fuel) c s t (text_pass-Extends c.parse_state c s t line)
        (text_pass-Stays c.parse_state c s line) (parse_text_lem c (s ++ t))
        (λ c' s' g. text_loop-continue fuel c' s' t g) h
  | inr past ↦ absurd (text_loop-InHead (suc fuel) c s past h)
]

pub parse_text-append :
    (c c' : HttpContext) (s s' t : Bytes)
    → parse_text c s ≡ parsed true c' s'
    → IsLine c'.parse_state
    → parse_text c' (s' ++ t) ≡ parse_text c (s ++ t)
unfolding parse_text
parse_text-append c c' s s' t e h =
    sym (ap (λ o. continue_with o t) e) ∙ text_loop-continue (suc (suc (length s))) c s t (rw e h)

-- Where a call of `parseRequest` succeeds and the parser still takes lines, a second call, on a buffer
-- with the bytes left over and more bytes `t` behind them, ends like one call on the first content and
-- `t` at once: with the same state and the same bytes left. So it does not matter how the head of a
-- request is cut into reads, not even between CR and LF.
pub parse_request-chunks :
    (c c' : HttpContext) (first left second whole : Buffer) (t : Bytes)
    → IsValid first
    → IsValid second
    → IsValid whole
    → parse_request c first ≡ parsed true c' left
    → IsLine c'.parse_state
    → contents second ≡ contents left ++ t
    → contents whole ≡ contents first ++ t
    → view (parse_request c' second) ≡ view (parse_request c whole)
parse_request-chunks c c' first left second whole t v v2 v3 e h e2 e3 =
    (parse_request-view c' second v2).0
    ∙ ap (parse_text c') e2
    ∙ parse_text-append c c' (contents first) (contents left) t
        (sym (parse_request-view c first v).0 ∙ ap view e) h
    ∙ ap (parse_text c) (sym e3)
    ∙ sym (parse_request-view c whole v3).0
