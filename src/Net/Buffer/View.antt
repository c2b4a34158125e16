-- ===== src/Net/Buffer/View.antt =====
-- The content of a Buffer, from `beginRead()` to `beginWrite()`, under the operations that do not
-- grow the vector.
use carf_lib.Shared.{
  ℕ, ◌+◌, ◌-◌, ◌≤◌, ◌≡◌, sym, ap, ◌∙◌, inl, inr, arith, Bytes, length, take, drop, ltb, ◌==◌,
  if◌then◌else◌, Bool-cases, length-take, length-drop, take-take, drop-drop, take-drop, take_all,
  drop_all,
}
use carf_lib.Net.Buffer.{
  Buffer, IsValid, contents, retrieve_len, readable_bytes, is_empty, settle, add_read_index,
}

pub length-contents : (b : Buffer) → IsValid b → length (contents b) ≡ readable_bytes b
unfolding contents
length-contents b v = omega (
  arith,
  length-take (readable_bytes b) (drop b.read_index b.bytes),
  length-drop b.read_index b.bytes,
)

-- The test `empty()` is the test for an empty content.
pub is_empty-length : (b : Buffer) → IsValid b → is_empty b ≡ (length (contents b) == 0)
unfolding is_empty
is_empty-length b v = ground (arith, length-contents b v)

pub add_read_index-IsValid :
    (b : Buffer) (n : ℕ) → IsValid b → n ≤ readable_bytes b → IsValid (add_read_index b n)
add_read_index-IsValid b n v h = ground arith

-- Consuming `n` bytes from the front.
pub contents-add_read_index :
    (b : Buffer) (n : ℕ)
    → IsValid b
    → n ≤ readable_bytes b
    → contents (add_read_index b n) ≡ drop n (contents b)
unfolding contents
contents-add_read_index b n v h =
    ap (λ xs. take (b.write_index - (b.read_index + n)) xs)
      (sym (drop-drop n b.read_index (b.read_index + n) b.bytes (omega arith)))
    ∙ take-drop (b.write_index - (b.read_index + n)) n (readable_bytes b)
        (drop b.read_index b.bytes) (omega arith)

contents-settle : (b : Buffer) → contents (settle b) ≡ contents b
unfolding contents settle
contents-settle b = elim (Bool-cases (b.read_index == b.write_index)) [
  | inl e ↦
      let z : readable_bytes b ≡ 0 = ground arith in
      rw e (sym (ap (λ n. take n (drop b.read_index b.bytes)) z))
  | inr e ↦ rw e
]

clip : ℕ → ℕ → ℕ
clip n m = if ltb n m then n else m

-- Taking and dropping no more than there is.
take-clip : (n m : ℕ) (xs : Bytes) → length xs ≤ m → take (clip n m) xs ≡ take n xs
unfolding clip
take-clip n m xs h = elim (Bool-cases (ltb n m)) [
  | inl e ↦ rw e
  | inr e ↦ rw e (take_all m xs h ∙ sym (take_all n xs (ground arith)))
]

drop-clip : (n m : ℕ) (xs : Bytes) → length xs ≤ m → drop (clip n m) xs ≡ drop n xs
unfolding clip
drop-clip n m xs h = elim (Bool-cases (ltb n m)) [
  | inl e ↦ rw e
  | inr e ↦ rw e (drop_all m xs h ∙ sym (drop_all n xs (ground arith)))
]

clip-le : (n m : ℕ) → clip n m ≤ m
unfolding clip
clip-le n m = ground arith

-- `retrieveLen(len)` hands out the first `len` bytes of the content, or all of a shorter one.
pub retrieve_len_text :
    (b : Buffer) (n : ℕ) → IsValid b → (retrieve_len b n).0 ≡ take n (contents b)
unfolding retrieve_len clip contents
retrieve_len_text b n v =
    sym (take-take (clip n (readable_bytes b)) (readable_bytes b) _ (clip-le n (readable_bytes b)))
    ∙ take-clip n (readable_bytes b) (contents b) (omega (arith, length-contents b v))

-- And it leaves the rest.
pub contents-retrieve_len :
    (b : Buffer) (n : ℕ) → IsValid b → contents (retrieve_len b n).1 ≡ drop n (contents b)
unfolding retrieve_len clip
contents-retrieve_len b n v =
    contents-settle (add_read_index b (clip n (readable_bytes b)))
    ∙ contents-add_read_index b (clip n (readable_bytes b)) v (clip-le n (readable_bytes b))
    ∙ drop-clip n (readable_bytes b) (contents b) (omega (arith, length-contents b v))

pub retrieve_len-IsValid : (b : Buffer) (n : ℕ) → IsValid b → IsValid (retrieve_len b n).1
unfolding retrieve_len
retrieve_len-IsValid b n v = ground arith

-- `retrieveLen(len)` on a valid buffer hands out the first `len` bytes of the content, or all of a
-- shorter one, and leaves a valid buffer with exactly the rest.
pub retrieve_len_lem :
    (b : Buffer) (n : ℕ)
    → IsValid b
    → ((retrieve_len b n).0 ≡ take n (contents b))
      × (contents (retrieve_len b n).1 ≡ drop n (contents b))
      × IsValid (retrieve_len b n).1
retrieve_len_lem b n v =
    (retrieve_len_text b n v, contents-retrieve_len b n v, retrieve_len-IsValid b n v)
