-- ===== src/Net/Buffer.antt =====
-- net/Buffer.h and net/Buffer.cc: a byte vector with a read and a write index.
-- The indices are numbers: `read_index ≤ write_index ≤ size` is the invariant `IsValid`, and none of
-- the operations here leaves it. `int` does not overflow while the vector is below 2 ^ 30 bytes.
pub mod View
pub mod Grow
pub mod Search
pub mod Resize
use mathlib.Core.Option
use carf_lib.Shared.{
  ℕ, zero, suc, ◌+◌, ◌-◌, ◌*◌, ◌≤◌, Bool, false, Option, none, some, ◌>>=◌, List, [], ◌∷◌, ◌++◌,
  Bytes, length, take, drop, replicate, leb, ltb, ◌==◌, ◌&&◌, if◌then◌else◌,
}

pub record Buffer : Type 0 where
  pub bytes : Bytes
  pub read_index : ℕ
  pub write_index : ℕ

-- `Buffer(int size)`: a fresh vector holds zero bytes.
unfoldable pub make : ℕ → Buffer
make n = record { bytes = replicate n 0; read_index = 0; write_index = 0 }

abbrev pub size : Buffer → ℕ
size b = length b.bytes

unfoldable pub is_empty : Buffer → Bool
is_empty b = b.read_index == b.write_index

abbrev pub readable_bytes : Buffer → ℕ
readable_bytes b = b.write_index - b.read_index

abbrev pub writable_bytes : Buffer → ℕ
writable_bytes b = size b - b.write_index

-- The bytes from `beginRead()` on, `readableBytes()` of them.
unfoldable pub contents : Buffer → Bytes
contents b = take (readable_bytes b) (drop b.read_index b.bytes)

-- `std::copy` of `src` into a vector, from offset `i` on.
unfoldable pub copy_to : Bytes → ℕ → Bytes → Bytes
copy_to [] i src = []
copy_to (x ∷ xs) zero [] = x ∷ xs
copy_to (x ∷ xs) zero (s ∷ src) = s ∷ copy_to xs zero src
copy_to (x ∷ xs) (suc i) src = x ∷ copy_to xs i src

abbrev pub add_write_index : Buffer → ℕ → Buffer
add_write_index b n = record b { write_index = b.write_index + n }

abbrev pub add_read_index : Buffer → ℕ → Buffer
add_read_index b n = record b { read_index = b.read_index + n }

abbrev pub reset : Buffer → Buffer
reset b = record b { read_index = 0; write_index = 0 }

-- `resize()` copies the range from `beginRead()` to `begin() + readableBytes()` to the start of a
-- vector twice as long, and leaves the indices. A range that ends before it starts is undefined.
unfoldable pub resize : Buffer → Option Buffer
unfolding copy_to
resize b =
    if leb b.read_index (readable_bytes b)
    then some (record b {
      bytes =
          copy_to (replicate (size b * 2) 0) 0
            (take (readable_bytes b - b.read_index) (drop b.read_index b.bytes));
    })
    else none

-- `while(len>writableBytes()){resize();}`; no fuel is left only where the vector cannot grow.
unfoldable pub grow : ℕ → Buffer → ℕ → Option Buffer
unfolding resize
grow zero b len = none
grow (suc fuel) b len =
    let rest = resize b >>= λ b'. grow fuel b' len in
    if leb len (writable_bytes b) then some b else rest

unfoldable pub append : Buffer → Bytes → Option Buffer
unfolding grow copy_to
append b s = grow (suc (b.write_index + length s)) b (length s) >>= λ b'.
    some (add_write_index (record b' { bytes = copy_to b'.bytes b'.write_index s }) (length s))

-- `if(readIndex_==writeIndex_) reset();`
unfoldable pub settle : Buffer → Buffer
settle b = if b.read_index == b.write_index then reset b else b

-- The bytes taken, and the buffer after it.
unfoldable pub retrieve_len : Buffer → ℕ → Bytes × Buffer
unfolding settle
retrieve_len b len =
    let n = if ltb len (readable_bytes b) then len else readable_bytes b in
    (take n (drop b.read_index b.bytes), settle (add_read_index b n))

unfoldable pub retrieve_all : Buffer → Bytes × Buffer
unfolding retrieve_len
retrieve_all b = retrieve_len b (readable_bytes b)

-- Whether CR LF stands at the start.
unfoldable pub starts_crlf : Bytes → Bool
starts_crlf (c ∷ d ∷ rest) = c == 13 && d == 10
starts_crlf _ = false

-- `std::search` for CR LF: the number of bytes before the first of them.
unfoldable pub crlf_in : Bytes → Option ℕ
unfolding starts_crlf
crlf_in [] = none
crlf_in (x ∷ xs) = if starts_crlf (x ∷ xs) then some 0 else Option.map suc (crlf_in xs)

-- `findCRLF()`: the offset from `beginRead()`.
unfoldable pub find_crlf : Buffer → Option ℕ
unfolding contents crlf_in
find_crlf b = crlf_in (contents b)

pub record IsValid (b : Buffer) : Type 0 where
  pub ordered : b.read_index ≤ b.write_index
  pub inside : b.write_index ≤ size b
