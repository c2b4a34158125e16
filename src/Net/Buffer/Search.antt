-- ===== src/Net/Buffer/Search.antt =====
-- `findCRLF()`: where the first line of the content ends.
use carf_lib.Shared.{
  ℕ, zero, suc, ◌+◌, ◌≤◌, ◌≡◌, refl, ap, ◌∙◌, ◌↔◌, false, none, some, [], ◌∷◌, ◌++◌, arith, Bytes,
  length, take, drop, length-take,
}
use carf_lib.Net.Buffer.{Buffer, contents, crlf_in, starts_crlf, find_crlf}

pub crlf_in_bound : (s : Bytes) (i : ℕ) → crlf_in s ≡ some i → i + 2 ≤ length s
unfolding crlf_in starts_crlf
crlf_in_bound [] i e = cc
crlf_in_bound (x ∷ []) i e = ground arith
crlf_in_bound (x ∷ y ∷ s) zero e = omega arith
crlf_in_bound (x ∷ y ∷ s) (suc i) e = ground (arith, crlf_in_bound (y ∷ s) i)

starts_crlf-take :
    (x : ℕ) (s : Bytes) (i : ℕ) → starts_crlf (x ∷ s) ≡ false → starts_crlf (x ∷ take i s) ≡ false
unfolding starts_crlf
starts_crlf-take x s zero e = refl
starts_crlf-take x [] (suc i) e = refl
starts_crlf-take x (y ∷ s) (suc i) e = e

-- One byte further in, the search has gone past a byte at which no CR LF starts.
crlf_in_later :
    (x : ℕ) (s : Bytes) (i : ℕ)
    → crlf_in (x ∷ s) ≡ some (suc i)
    → (starts_crlf (x ∷ s) ≡ false) × (crlf_in s ≡ some i)
unfolding crlf_in
crlf_in_later x s i e = ground arith

-- The line before it, the two bytes, and the rest make up the text, and the line holds no CR LF.
pub crlf_in_sound :
    (s : Bytes) (i : ℕ)
    → crlf_in s ≡ some i
    → (s ≡ take i s ++ 13 ∷ 10 ∷ drop (i + 2) s) × (crlf_in (take i s) ≡ none)
unfolding crlf_in
crlf_in_sound [] i e = cc
crlf_in_sound (x ∷ []) zero e = unfold starts_crlf in ground arith
crlf_in_sound (x ∷ []) (suc i) e = ground arith
crlf_in_sound (x ∷ y ∷ s) zero e = unfold starts_crlf in ground arith
crlf_in_sound (x ∷ y ∷ s) (suc i) e =
    let (here, later) = crlf_in_later x (y ∷ s) i e in
    let (splits, clean) = crlf_in_sound (y ∷ s) i later in
    let k : suc i + 2 ≡ suc (i + 2) = omega arith in
    (rw k (ap (◌∷◌ x) splits), rw (starts_crlf-take x (y ∷ s) i here, clean))

-- A line with no CR LF in it ends at the first CR LF behind it.
pub crlf_in_complete :
    (line rest : Bytes)
    → crlf_in line ≡ none
    → crlf_in (line ++ 13 ∷ 10 ∷ rest) ≡ some (length line)
unfolding crlf_in starts_crlf
crlf_in_complete [] rest e = refl
crlf_in_complete (x ∷ []) rest e = ground arith
crlf_in_complete (x ∷ y ∷ line) rest e = ground (arith, crlf_in_complete (y ∷ line) rest)

-- Bytes that arrive later do not move it.
pub crlf_in-append : (s t : Bytes) (i : ℕ) → crlf_in s ≡ some i → crlf_in (s ++ t) ≡ some i
unfolding crlf_in starts_crlf
crlf_in-append [] t i e = cc
crlf_in-append (x ∷ []) t i e = ground arith
crlf_in-append (x ∷ y ∷ s) t zero e = ground (arith, crlf_in-append (y ∷ s) t)
crlf_in-append (x ∷ y ∷ s) t (suc i) e = ground (arith, crlf_in-append (y ∷ s) t i)

-- `findCRLF()` answers with the length of the first line exactly: it finds `i` where the content is a
-- line of `i` bytes with no CR LF in it, CR LF and a rest, and in no other case.
pub find_crlf_iff :
    (b : Buffer) (i : ℕ)
    → (find_crlf b ≡ some i) ↔ (
        (line : Bytes) × (rest : Bytes) × (contents b ≡ line ++ 13 ∷ 10 ∷ rest)
        × (crlf_in line ≡ none)
        × (length line ≡ i))
unfolding find_crlf
find_crlf_iff b i = (
  λ e.
      let (splits, clean) = crlf_in_sound (contents b) i e in
      (
        take i (contents b),
        drop (i + 2) (contents b),
        splits,
        clean,
        omega (arith, length-take i (contents b), crlf_in_bound (contents b) i e),
      ),
  λ (line, rest, e, clean, len). ap crlf_in e ∙ crlf_in_complete line rest clean ∙ ap some len,
)
