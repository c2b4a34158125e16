-- ===== src/Shared/Stoi.antt =====
-- `std::stoi` in base 10: white space, a sign, at least one digit; what follows is ignored.
use carf_lib.Shared.{
  ℕ, zero, suc, ◌+◌, ◌-◌, ◌*◌, ◌^◌, ◌≡◌, refl, Bool, ◌&&◌, Option, none, some, [], ◌∷◌, ltb, leb,
  ◌==◌, if◌then◌else◌, ◌>>=◌, Bytes, codes, is_space,
}

-- `negsuc n` is -(n + 1).
pub data ℤ : Type 0 where
  pos : ℕ → ℤ
  negsuc : ℕ → ℤ

abbrev negate : ℕ → ℤ
negate zero = pos 0
negate (suc n) = negsuc n

abbrev is_digit : ℕ → Bool
is_digit c = leb b'0' c && leb c b'9'

-- The value of the digits up to the first byte that is none.
read_digits : ℕ → Bytes → ℕ
read_digits acc [] = acc
read_digits acc (c ∷ cs) =
    let rest = read_digits (acc * 10 + (c - b'0')) cs in if is_digit c then rest else acc

-- No digit throws `std::invalid_argument`.
magnitude : Bytes → Option ℕ
unfolding read_digits
magnitude [] = none
magnitude (c ∷ cs) = if is_digit c then some (read_digits 0 (c ∷ cs)) else none

-- A value that is no `int` throws `std::out_of_range`.
positive : ℕ → Option ℤ
positive n = if ltb n (2 ^ 31) then some (pos n) else none

negative : ℕ → Option ℤ
negative n = if leb n (2 ^ 31) then some (negate n) else none

signed : Bytes → Option ℤ
unfolding magnitude positive negative
signed [] = none
signed (c ∷ cs) =
    if c == b'-'
    then magnitude cs >>= negative
    else if c == b'+'
    then magnitude cs >>= positive
    else magnitude (c ∷ cs) >>= positive

skip_spaces : Bytes → Bytes
skip_spaces [] = []
skip_spaces (c ∷ cs) = let rest = skip_spaces cs in if is_space c then rest else c ∷ cs

-- `none` is an exception.
unfoldable pub stoi : Bytes → Option ℤ
unfolding signed skip_spaces
stoi s = signed (skip_spaces s)

stoi_sample : stoi (codes " -12kB") ≡ some (negsuc 11)
unfolding stoi is_space
stoi_sample = refl

-- The empty string throws.
pub stoi_empty : stoi [] ≡ none
unfolding stoi
stoi_empty = refl
