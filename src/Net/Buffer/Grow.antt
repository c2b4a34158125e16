-- ===== src/Net/Buffer/Grow.antt =====
-- `append` and `resize`: when the growing vector keeps the content, and when it does not.
use carf_lib.Shared.{
  ℕ, zero, suc, ◌+◌, ◌-◌, ◌*◌, ◌≤◌, ◌<◌, ◌≡◌, refl, sym, ap, ◌∙◌, ◌⊎◌, inl, inr, true, false, some,
  [], ◌∷◌, ◌++◌, append_assoc, arith, leb, Bool-cases, Bytes, length, take, drop, replicate,
  length-append, length-take, length-replicate, take-append, drop-append_le, take-drop,
}
use carf_lib.Net.Buffer.{
  Buffer, IsValid, contents, copy_to, readable_bytes, writable_bytes, size, resize, grow, append,
  add_write_index,
}

pub length-copy_to : (xs : Bytes) (i : ℕ) (src : Bytes) → length (copy_to xs i src) ≡ length xs
unfolding copy_to
length-copy_to [] i src = refl
length-copy_to (x ∷ xs) zero [] = refl
length-copy_to (x ∷ xs) zero (s ∷ src) = ap suc (length-copy_to xs zero src)
length-copy_to (x ∷ xs) (suc i) src = ap suc (length-copy_to xs i src)

-- A copy that fits replaces the bytes from `i` to `k`.
pub copy_to_lem :
    (xs : Bytes) (i : ℕ) (src : Bytes) (k : ℕ)
    → i + length src ≡ k
    → k ≤ length xs
    → copy_to xs i src ≡ take i xs ++ (src ++ drop k xs)
unfolding copy_to
copy_to_lem [] zero [] zero e h = refl
copy_to_lem [] i src (suc k) e h = absurd (omega arith)
copy_to_lem [] zero (s ∷ src) zero e h = absurd (omega arith)
copy_to_lem [] (suc i) src zero e h = absurd (omega arith)
copy_to_lem (x ∷ xs) zero [] zero e h = refl
copy_to_lem (x ∷ xs) zero [] (suc k) e h = absurd (omega arith)
copy_to_lem (x ∷ xs) zero (s ∷ src) zero e h = absurd (omega arith)
copy_to_lem (x ∷ xs) zero (s ∷ src) (suc k) e h =
    ap (◌∷◌ s) (copy_to_lem xs zero src k (omega arith) (omega arith))
copy_to_lem (x ∷ xs) (suc i) src zero e h = absurd (omega arith)
copy_to_lem (x ∷ xs) (suc i) src (suc k) e h =
    ap (◌∷◌ x) (copy_to_lem xs i src k (omega arith) (omega arith))

-- The content, cut the other way round.
contents-drop-take :
    (b : Buffer) → IsValid b → contents b ≡ drop b.read_index (take b.write_index b.bytes)
unfolding contents
contents-drop-take b v =
    take-drop (readable_bytes b) b.read_index b.write_index b.bytes (omega arith)

-- What growing leaves: the same indices, the same content, and room for `len` more bytes.
pub record Grows (b : Buffer) (len : ℕ) (b' : Buffer) : Type 0 where
  pub same_read : b'.read_index ≡ b.read_index
  pub same_write : b'.write_index ≡ b.write_index
  pub same_contents : contents b' ≡ contents b
  pub valid : IsValid b'
  pub room : len ≤ writable_bytes b'
  pub larger : size b ≤ size b'
  pub bounded : (size b' ≡ size b) ⊎ (size b' < 2 * (b.write_index + len))

-- The vector after `resize()`, where the copied range is not reversed.
unfoldable pub doubled : Buffer → Buffer
unfolding copy_to
doubled b = record b {
  bytes =
      copy_to (replicate (size b * 2) 0) 0
        (take (readable_bytes b - b.read_index) (drop b.read_index b.bytes));
}

size-doubled : (b : Buffer) → size (doubled b) ≡ size b * 2
unfolding doubled
size-doubled b = length-copy_to (replicate (size b * 2) 0) 0 _ ∙ length-replicate (size b * 2) 0

write-doubled : (b : Buffer) → (doubled b).write_index ≡ b.write_index
unfolding doubled
write-doubled b = refl

read-doubled : (b : Buffer) → (doubled b).read_index ≡ b.read_index
unfolding doubled
read-doubled b = refl

resize_zero : (b : Buffer) → b.read_index ≡ 0 → resize b ≡ some (doubled b)
unfolding resize doubled
resize_zero b e = let t : leb b.read_index (readable_bytes b) ≡ true = ground arith in rw t

copy_to_front :
    (xs src : Bytes) (n : ℕ) → length src ≡ n → n ≤ length xs → take n (copy_to xs 0 src) ≡ src
copy_to_front xs src n e h =
    rw (copy_to_lem xs 0 src n (omega arith) h)
      (ap (λ k. take k (src ++ drop n xs)) (sym e) ∙ take-append src (drop n xs))

doubled_view :
    (bs : Bytes) (r w : ℕ)
    → r ≡ 0
    → w ≤ length bs
    → take (w - r) (drop r (copy_to (replicate (length bs * 2) 0) 0 (take (w - r - r) (drop r bs))))
      ≡ take (w - r) (drop r bs)
doubled_view bs zero w e h =
    let d : w - 0 ≡ w = omega arith in
    rw (d, d)
      (copy_to_front (replicate (length bs * 2) 0) (take w bs) w (omega (arith, length-take w bs))
        (omega (arith, length-replicate (length bs * 2) (zero))))
doubled_view bs (suc r) w e h = absurd (omega arith)

-- Nothing has been read yet: the copy is exact.
contents-doubled : (b : Buffer) → IsValid b → b.read_index ≡ 0 → contents (doubled b) ≡ contents b
unfolding doubled contents
contents-doubled b v e = doubled_view b.bytes b.read_index b.write_index e v.inside

Grows-here : (b : Buffer) (len : ℕ) → IsValid b → len ≤ writable_bytes b → Grows b len b
Grows-here b len v h = record {
  same_read = refl;
  same_write = refl;
  same_contents = refl;
  valid = v;
  room = h;
  larger = omega arith;
  bounded = inl refl;
}

doubled-IsValid : (b : Buffer) → IsValid b → IsValid (doubled b)
doubled-IsValid b v = record {
  ordered = omega (arith, read-doubled b, write-doubled b);
  inside = omega (arith, write-doubled b, size-doubled b);
}

Grows-doubled :
    (b : Buffer) (len : ℕ) (b' : Buffer)
    → IsValid b
    → b.read_index ≡ 0
    → size b < b.write_index + len
    → Grows (doubled b) len b'
    → Grows b len b'
Grows-doubled b len b' v e h g = record {
  same_read = g.same_read ∙ read-doubled b;
  same_write = g.same_write ∙ write-doubled b;
  same_contents = g.same_contents ∙ contents-doubled b v e;
  valid = g.valid;
  room = g.room;
  larger = omega (arith, g.larger, size-doubled b);
  bounded = inr (omega (arith, g.bounded, size-doubled b, write-doubled b));
}

grow_step :
    (fuel : ℕ) (b : Buffer) (len : ℕ)
    → b.read_index ≡ 0
    → leb len (writable_bytes b) ≡ false
    → grow (suc fuel) b len ≡ grow fuel (doubled b) len
unfolding grow
grow_step fuel b len e f = rw (f, resize_zero b e)

grow_stop :
    (fuel : ℕ) (b : Buffer) (len : ℕ)
    → leb len (writable_bytes b) ≡ true
    → grow (suc fuel) b len ≡ some b
unfolding grow
grow_stop fuel b len f = rw f

-- With nothing read yet, doubling ends in a buffer that has the room.
grow-Grows :
    (fuel : ℕ) (b : Buffer) (len : ℕ)
    → IsValid b
    → b.read_index ≡ 0
    → 0 < size b
    → b.write_index + len ≤ fuel + size b
    → (b' : Buffer) × (grow (suc fuel) b len ≡ some b') × Grows b len b'
grow-Grows zero b len v e p h =
    (b, grow_stop zero b len (ground arith), Grows-here b len v (ground arith))
grow-Grows (suc fuel) b len v e p h = elim (Bool-cases (leb len (writable_bytes b))) [
  | inl fits ↦ (b, grow_stop (suc fuel) b len fits, Grows-here b len v (ground arith))
  | inr full ↦
      let (b', found, g) =
        grow-Grows fuel (doubled b) len (doubled-IsValid b v) (read-doubled b ∙ e)
          (omega (arith, size-doubled b)) (omega (arith, size-doubled b, write-doubled b)) in
      (b', grow_step (suc fuel) b len e full ∙ found, Grows-doubled b len b' v e (ground arith) g)
]

-- `append` keeps the content where the vector has the room, or may grow before anything is read.
abbrev pub CanAppend : Buffer → ℕ → Type 0
CanAppend b len = (len ≤ writable_bytes b) ⊎ (b.read_index ≡ 0) × (0 < size b)

pub grow_enough :
    (b : Buffer) (len : ℕ)
    → IsValid b
    → CanAppend b len
    → (b' : Buffer) × (grow (suc (b.write_index + len)) b len ≡ some b') × Grows b len b'
grow_enough b len v (inl fits) =
    (b, grow_stop (b.write_index + len) b len (ground arith), Grows-here b len v fits)
grow_enough b len v (inr (e, p)) = grow-Grows (b.write_index + len) b len v e p (omega arith)

written : Buffer → Bytes → Buffer
written b s = add_write_index (record b { bytes = copy_to b.bytes b.write_index s }) (length s)

contents-written :
    (b : Buffer) (s : Bytes)
    → IsValid b
    → length s ≤ writable_bytes b
    → IsValid (written b s)
    → contents (written b s) ≡ contents b ++ s
unfolding written
contents-written b s v h v' =
    let k : ℕ = b.write_index + length s in
    let front : Bytes = take b.write_index b.bytes in
    contents-drop-take (written b s) v'
    ∙ ap (λ xs. drop b.read_index (take k xs))
        (copy_to_lem b.bytes b.write_index s k refl (omega arith)
          ∙ sym (append_assoc front s (drop k b.bytes)))
    ∙ ap (λ n. drop b.read_index (take n ((front ++ s) ++ drop k b.bytes)))
        (omega (arith, length-append front s, length-take b.write_index b.bytes))
    ∙ ap (drop b.read_index) (take-append (front ++ s) (drop k b.bytes))
    ∙ drop-append_le b.read_index front s (omega (arith, length-take b.write_index b.bytes))
    ∙ ap (λ xs. xs ++ s) (sym (contents-drop-take b v))

written-IsValid :
    (b : Buffer) (s : Bytes) → IsValid b → length s ≤ writable_bytes b → IsValid (written b s)
unfolding written
written-IsValid b s v h = omega (arith, length-copy_to b.bytes b.write_index s)

size-written : (b : Buffer) (s : Bytes) → size (written b s) ≡ size b
unfolding written
size-written b s = length-copy_to b.bytes b.write_index s

-- What a successful `append` of `s` leaves.
pub record Appends (b : Buffer) (s : Bytes) (b' : Buffer) : Type 0 where
  pub valid : IsValid b'
  pub same_read : b'.read_index ≡ b.read_index
  pub more : contents b' ≡ contents b ++ s
  pub larger : size b ≤ size b'
  pub bounded : (size b' ≡ size b) ⊎ (size b' < 2 * (b.write_index + length s))

-- Where the room is there, or nothing has been read and the vector is not empty, `append` succeeds
-- on the fuel it is given, keeps the invariant and the read index, adds exactly `s` to the content,
-- and leaves a vector no smaller, of the old size or below twice what it has to hold.
pub append-Appends :
    (b : Buffer) (s : Bytes)
    → IsValid b
    → CanAppend b (length s)
    → (b' : Buffer) × (append b s ≡ some b') × Appends b s b'
unfolding append
append-Appends b s v can =
    let (g, found, grows) = grow_enough b (length s) v can in
    let ok = written-IsValid g s grows.valid grows.room in
    (
      written g s,
      rw found (unfold written in refl),
      record {
        valid = ok;
        same_read = (unfold written in grows.same_read);
        more =
            contents-written g s grows.valid grows.room ok ∙ ap (λ xs. xs ++ s) grows.same_contents;
        larger = omega (arith, size-written g s, grows.larger);
        bounded = rw (size-written g s) grows.bounded;
      },
    )
