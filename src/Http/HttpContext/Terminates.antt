-- ===== src/Http/HttpContext/Terminates.antt =====
-- The loop of `parseRequest` ends, and where it can end.
use carf_lib.Shared.{
  ℕ, zero, suc, ◌+◌, ◌≤◌, ◌<◌, ◌≡◌, refl, inl, inr, Bool, true, false, Option, none, some, [], ◌∷◌,
  arith, Bool-cases, Option-cases, Bytes, codes, length, take, drop, length-drop,
}
use carf_lib.Shared.Stoi.{ℤ, stoi}
use carf_lib.Net.Buffer.{Buffer, IsValid, contents, crlf_in}
use carf_lib.Net.Buffer.Search.{crlf_in_bound}
use carf_lib.Http.HttpRequest.{get_header}
use carf_lib.Http.HttpContext.{
  ParseState, HttpContext, Pass, again, stop, throws, take_request_line, take_header, take_body,
  Outcome, parsed, threw, hung, resume, is_length, parse_request, process_request_line,
}
use carf_lib.Http.HttpContext.Refines.{view, parse_request-view}
use carf_lib.Http.HttpContext.Text.{text_body, text_pass, text_loop, parse_text}

-- One more pass may be due where the request is not complete.
abbrev pub rank : ParseState → ℕ
rank ParseState.got_all = 0
rank _ = 1

pub rank-le : (st : ParseState) → rank st ≤ 1
rank-le ParseState.got_all = omega arith
rank-le _ = omega arith

abbrev pub measure : HttpContext → Bytes → ℕ
measure c s = rank c.parse_state + length s

-- A pass that goes on has come down.
abbrev pub Falls : ℕ → Pass Bytes → Type 0
Falls n (again c s) = measure c s < n
Falls n _ = Unit {0}

take_request_line-Falls :
    (c : HttpContext) (s line rest : Bytes) (n : ℕ)
    → length rest + 1 < n
    → Falls n (take_request_line c s line rest)
unfolding take_request_line
take_request_line-Falls c s line rest n h = ground arith

text_body-Falls :
    (c : HttpContext) (s : Bytes) (n : Option ℤ) → Falls (1 + length s) (text_body c s n)
unfolding text_body take_body
text_body-Falls c s none = tt
text_body-Falls c s (some n) = ground (arith, rank-le c.parse_state)

shorter : (s : Bytes) (i : ℕ) → crlf_in s ≡ some i → length (drop (i + 2) s) + 1 < 1 + length s
shorter s i e = omega (arith, crlf_in_bound s i e, length-drop (i + 2) s)

pub text_pass-Falls :
    (st : ParseState) (c : HttpContext) (s : Bytes) → Falls (rank st + length s) (text_pass st c s)
unfolding text_pass
text_pass-Falls ParseState.expect_request_line c s = elim (Option-cases (crlf_in s)) [
  | inl e ↦ rw (e, Falls, text_pass) tt
  | inr (i, e) ↦
      rw (e, Falls, text_pass)
        (take_request_line-Falls c s (take i s) (drop (i + 2) s) (1 + length s) (shorter s i e))
]
text_pass-Falls ParseState.expect_headers c s = elim (Option-cases (crlf_in s)) [
  | inl e ↦ rw (e, Falls, text_pass) tt
  | inr (i, e) ↦
      rw (e, Falls, text_pass)
        (omega (arith, shorter s i e, rank-le (take_header c (take i s)).parse_state))
]
text_pass-Falls ParseState.expect_body c s =
    text_body-Falls c s (stoi (get_header c.request (codes "Content-Length")))
text_pass-Falls ParseState.got_all c s = tt

resume_same :
    (p : Pass Bytes) (n : ℕ) (k l : HttpContext → Bytes → Outcome Bytes)
    → Falls n p
    → ((c : HttpContext) (s : Bytes) → measure c s < n → k c s ≡ l c s)
    → resume p k ≡ resume p l
resume_same (again c s) n k l f h = h c s f
resume_same (stop ok c s) n k l f h = refl
resume_same throws n k l f h = refl

-- Fuel above the measure is enough: more of it changes nothing.
text_loop_same :
    (f g : ℕ) (c : HttpContext) (s : Bytes)
    → measure c s < f
    → measure c s < g
    → text_loop f c s ≡ text_loop g c s
unfolding text_loop
text_loop_same zero g c s h k = absurd (omega arith)
text_loop_same (suc f) zero c s h k = absurd (omega arith)
text_loop_same (suc f) (suc g) c s h k =
    resume_same (text_pass c.parse_state c s) (measure c s) (text_loop f) (text_loop g)
      (text_pass-Falls c.parse_state c s)
      (λ c' s' lt. text_loop_same f g c' s' (omega arith) (omega arith))

-- So the parser satisfies its own equation, with no fuel in sight.
pub parse_text_lem :
    (c : HttpContext) (s : Bytes) → parse_text c s ≡ resume (text_pass c.parse_state c s) parse_text
unfolding parse_text text_loop
parse_text_lem c s =
    resume_same (text_pass c.parse_state c s) (measure c s) (text_loop (suc (length s))) parse_text
      (text_pass-Falls c.parse_state c s)
      (λ c' s' lt.
        text_loop_same (suc (length s)) (suc (suc (length s'))) c' s'
          (omega (arith, rank-le c.parse_state)) (omega (arith, rank-le c'.parse_state)))

-- Where the parser may rest: it needs more input, or is done, or has refused the request line, which
-- then stays in the input.
abbrev pub Rests : ParseState → Bool → Bytes → Type 0
Rests ParseState.expect_request_line true s = crlf_in s ≡ none
Rests ParseState.expect_headers true s = crlf_in s ≡ none
Rests ParseState.expect_body true s = s ≡ []
Rests ParseState.got_all true s = Unit {0}
Rests ParseState.expect_request_line false s = (i : ℕ) × (crlf_in s ≡ some i)
Rests _ false s = ⊥

abbrev pub Ends : Outcome Bytes → Type 0
Ends (parsed ok c s) = Rests c.parse_state ok s
Ends threw = Unit {0}
Ends hung = ⊥

-- A pass that stops rests.
abbrev PassRests : Pass Bytes → Type 0
PassRests (stop ok c s) = Rests c.parse_state ok s
PassRests _ = Unit {0}

take_request_line-PassRests :
    (c : HttpContext) (s line rest : Bytes) (i : ℕ)
    → c.parse_state ≡ ParseState.expect_request_line
    → crlf_in s ≡ some i
    → PassRests (take_request_line c s line rest)
unfolding take_request_line
take_request_line-PassRests c s line rest i st e =
    elim (Bool-cases (process_request_line c.request line).1) [
      | inl ok ↦ rw (ok, take_request_line) tt
      | inr bad ↦ rw (bad, take_request_line) (rw st (i, e))
    ]

text_body-PassRests :
    (c : HttpContext) (s : Bytes) (n : Option ℤ)
    → c.parse_state ≡ ParseState.expect_body
    → PassRests (text_body c s n)
unfolding text_body take_body
text_body-PassRests c s none st = tt
text_body-PassRests c [] (some n) st = elim (Bool-cases (is_length n 0)) [
  | inl e ↦ rw e tt
  | inr e ↦ rw (e, st) refl
]
text_body-PassRests c (x ∷ s) (some n) st = ground arith

text_pass-PassRests :
    (st : ParseState) (c : HttpContext) (s : Bytes)
    → c.parse_state ≡ st
    → PassRests (text_pass st c s)
unfolding text_pass
text_pass-PassRests ParseState.expect_request_line c s h = elim (Option-cases (crlf_in s)) [
  | inl e ↦ rw (e, PassRests, text_pass) (rw h e)
  | inr (i, e) ↦
      rw (e, PassRests, text_pass)
        (take_request_line-PassRests c s (take i s) (drop (i + 2) s) i h e)
]
text_pass-PassRests ParseState.expect_headers c s h = elim (Option-cases (crlf_in s)) [
  | inl e ↦ rw (e, PassRests, text_pass) (rw h e)
  | inr (i, e) ↦ rw (e, PassRests, text_pass) tt
]
text_pass-PassRests ParseState.expect_body c s h =
    text_body-PassRests c s (stoi (get_header c.request (codes "Content-Length"))) h
text_pass-PassRests ParseState.got_all c s h = rw h tt

resume-Ends :
    (p : Pass Bytes) (n : ℕ) (k : HttpContext → Bytes → Outcome Bytes)
    → Falls n p
    → PassRests p
    → ((c : HttpContext) (s : Bytes) → measure c s < n → Ends (k c s))
    → Ends (resume p k)
resume-Ends (again c s) n k f r h = h c s f
resume-Ends (stop ok c s) n k f r h = r
resume-Ends throws n k f r h = tt

text_loop-Ends :
    (fuel : ℕ) (c : HttpContext) (s : Bytes) → measure c s < fuel → Ends (text_loop fuel c s)
unfolding text_loop
text_loop-Ends zero c s h = absurd (omega arith)
text_loop-Ends (suc fuel) c s h =
    resume-Ends (text_pass c.parse_state c s) (measure c s) (text_loop fuel)
      (text_pass-Falls c.parse_state c s) (text_pass-PassRests c.parse_state c s refl)
      (λ c' s' lt. text_loop-Ends fuel c' s' (omega arith))

-- `parseRequest` on a valid buffer always ends: it throws; or it succeeds, and then is done, or waits
-- for the end of a line that is not in the buffer, or for a body with the buffer empty; or it fails,
-- and then still stands at a request line that is complete in the buffer.
pub parse_request-Ends :
    (c : HttpContext) (buf : Buffer) → IsValid buf → Ends (view (parse_request c buf))
unfolding parse_text
parse_request-Ends c buf v = rw (parse_request-view c buf v).0 (
    text_loop-Ends (suc (suc (length (contents buf)))) c (contents buf)
      (omega (arith, rank-le c.parse_state)))
