-- ===== src/Net/Buffer/Resize.antt =====
-- `resize()` after something was read: the range that it copies ends too early, and the copy lands
-- `readIndex_` bytes before the place from which it is read.
use carf_lib.Shared.{
  ℕ, zero, ◌+◌, ◌-◌, ◌*◌, ◌≤◌, ◌<◌, min, ◌≡◌, sym, ap, ap₂, ◌∙◌, ◌⊎◌, inl, inr, none, some, ◌++◌,
  arith, leb, Bool-cases, Bytes, length, take, drop, replicate, length-take, length-drop,
  length-replicate, take_all, take-take, take-append_split, drop-append_split, take-replicate,
  drop-replicate,
}
use carf_lib.Net.Buffer.{Buffer, IsValid, contents, copy_to, readable_bytes, size, resize}
use carf_lib.Net.Buffer.Grow.{copy_to_lem, doubled}

-- A prefix over zero bytes, cut at `r` and then to `n` bytes.
cut_over_zeros :
    (front : Bytes) (r n m : ℕ)
    → length front ≤ r + n
    → r + n ≤ m
    → take n (drop r (copy_to (replicate m 0) 0 front))
      ≡ drop r front ++ replicate (n - (length front - r)) 0
cut_over_zeros front r n m short long =
    let gap : ℕ = r - length front in
    ap (λ xs. take n (drop r xs))
      (copy_to_lem (replicate m 0) 0 front (length front) (omega arith)
          (omega (arith, length-replicate m (zero)))
        ∙ ap (λ xs. front ++ xs) (drop-replicate (length front) m 0))
    ∙ ap (take n) (
        drop-append_split r front (replicate (m - length front) 0)
        ∙ ap (λ xs. drop r front ++ xs) (drop-replicate gap (m - length front) 0))
    ∙ take-append_split n (drop r front) (replicate (m - length front - gap) 0)
    ∙ ap₂ (λ xs ys. xs ++ ys) (take_all n (drop r front) (omega (arith, length-drop r front)))
        (rw (length-drop r front)
          (take-replicate (n - (length front - r)) (m - length front - gap) 0 (omega arith)))

contents-doubled :
    (b : Buffer)
    → IsValid b
    → b.read_index ≤ readable_bytes b
    → contents (doubled b)
      ≡ drop b.read_index (take (readable_bytes b - b.read_index) (contents b))
        ++ replicate (min (readable_bytes b) (2 * b.read_index)) 0
unfolding doubled contents
contents-doubled b v h =
    let r : ℕ = b.read_index in
    let n : ℕ = readable_bytes b in
    let front : Bytes = take (n - r) (drop r b.bytes) in
    let len : length front ≡ n - r =
      omega (arith, length-take (n - r) (drop r b.bytes), length-drop r b.bytes) in
    cut_over_zeros front r n (size b * 2) (omega arith) (omega arith)
    ∙ ap₂ (λ xs k. drop r xs ++ replicate k 0)
        (sym (take-take (n - r) n (drop r b.bytes) (omega arith))) (omega arith)

-- After a read of `r > 0` bytes `resize()` is undefined where fewer than `r` bytes are left to read;
-- otherwise the content loses its first `r` and its last `r` bytes, and is filled up with zeros.
pub resize_after_read :
    (b : Buffer)
    → IsValid b
    → 0 < b.read_index
    → ((readable_bytes b < b.read_index) × (resize b ≡ none))
      ⊎ ((b' : Buffer) × (resize b ≡ some b')
          × (contents b'
              ≡ drop b.read_index (take (readable_bytes b - b.read_index) (contents b))
                ++ replicate (min (readable_bytes b) (2 * b.read_index)) 0))
unfolding resize doubled
resize_after_read b v p = elim (Bool-cases (leb b.read_index (readable_bytes b))) [
  | inr bad ↦ inl (ground arith, rw bad)
  | inl fits ↦ inr (doubled b, rw fits, contents-doubled b v (ground arith))
]
