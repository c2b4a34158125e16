-- ===== src/Shared/Format.antt =====
-- Decimals of a fixed width, as `printf` writes them with a width, and how they are read back.
use carf_lib.Shared.{
  ℕ, zero, suc, ◌+◌, ◌-◌, ◌*◌, ◌/◌, ◌%◌, ◌≤◌, ◌<◌, ◌≡◌, refl, sym, ap, ◌∙◌, inl, inr, [], ◌∷◌, ◌++◌,
  arith, ltb, Bool-cases, Bytes, length, drop, replicate, length-append, length-replicate,
}
use carf_lib.Shared.Decimal.{decimal_digits, decimal, tens, length-decimal}

-- `%0kd` with `fill` '0', and `%kd` with a space.
unfoldable pub padded : ℕ → ℕ → ℕ → Bytes
padded fill k n = replicate (k - length (decimal n)) fill ++ decimal n

-- The number that the digits stand for, when `acc` stands before them; a space counts as a zero.
unfoldable pub value : ℕ → Bytes → ℕ
value acc [] = acc
value acc (x ∷ xs) = value (10 * acc + (x - b'0')) xs

value-append : (acc : ℕ) (xs ys : Bytes) → value acc (xs ++ ys) ≡ value (value acc xs) ys
unfolding value
value-append acc [] ys = refl
value-append acc (x ∷ xs) ys = value-append (10 * acc + (x - b'0')) xs ys

value-replicate : (fill n : ℕ) → fill ≤ b'0' → value 0 (replicate n fill) ≡ 0
unfolding value
value-replicate fill zero h = refl
value-replicate fill (suc n) h =
    let nothing : 10 * 0 + (fill - b'0') ≡ 0 = omega arith in
    ap (λ a. value a (replicate n fill)) nothing ∙ value-replicate fill n h

value-digits : (fuel n : ℕ) → n < fuel → value 0 (decimal_digits fuel n) ≡ n
unfolding value decimal_digits
value-digits zero n h = absurd (omega arith)
value-digits (suc fuel) n h = elim (Bool-cases (ltb n 10)) [
  | inl t ↦ rw t (omega arith)
  | inr t ↦ rw t (
      value-append 0 (decimal_digits fuel (n / 10)) ((b'0' + n % 10) ∷ [])
      ∙ omega (arith, value-digits fuel (n / 10) (ground arith)))
]

value-decimal : (n : ℕ) → value 0 (decimal n) ≡ n
unfolding decimal
value-decimal n = value-digits (suc n) n (omega arith)

value-padded : (fill k n : ℕ) → fill ≤ b'0' → value 0 (padded fill k n) ≡ n
unfolding padded
value-padded fill k n h =
    value-append 0 (replicate (k - length (decimal n)) fill) (decimal n)
    ∙ ap (λ a. value a (decimal n)) (value-replicate fill (k - length (decimal n)) h)
    ∙ value-decimal n

pub length-padded : (fill k n : ℕ) → n < tens (suc k) → length (padded fill (suc k) n) ≡ suc k
unfolding padded
length-padded fill k n h =
    length-append (replicate (suc k - length (decimal n)) fill) (decimal n)
    ∙ omega (arith, length-replicate (suc k - length (decimal n)) fill, length-decimal k n h)

-- A number is known from its digits.
pub padded_inj : (fill k m n : ℕ) → fill ≤ b'0' → padded fill k m ≡ padded fill k n → m ≡ n
padded_inj fill k m n h e = sym (value-padded fill k m h) ∙ ap (value 0) e ∙ value-padded fill k n h

-- Two texts that begin with parts of one length agree part by part.
pub parts_inj : (a b xs ys : Bytes) → length a ≡ length b → a ++ xs ≡ b ++ ys → (a ≡ b) × (xs ≡ ys)
parts_inj [] [] xs ys l e = (refl, e)
parts_inj [] (y ∷ b) xs ys l e = absurd (omega arith)
parts_inj (x ∷ a) [] xs ys l e = absurd (omega arith)
parts_inj (x ∷ a) (y ∷ b) xs ys l e =
    let (same, rest) = parts_inj a b xs ys (omega arith) (ap (drop 1) e) in (ground (arith), rest)
