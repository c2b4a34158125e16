-- ===== src/Net/TcpConnection/Receiving.antt =====
-- What `handleRead` makes of the bytes that arrive.
use carf_lib.Shared.{
  if_true, ℕ, zero, ◌+◌, ◌-◌, ◌*◌, ◌≤◌, ◌<◌, ◌≡◌, refl, sym, ap, ◌∙◌, subst, inl, true, false, some,
  List, [], ◌∷◌, ◌++◌, append-nil, append_assoc, arith, leb, ◌==◌, Bytes, length, take, drop,
  replicate, length-append, length-take, length-replicate, take-append_le, take_all, take-take,
  take-append_split, take-replicate, drop-replicate,
}
use carf_lib.Net.Buffer.{Buffer, IsValid, contents, copy_to, writable_bytes, append, grow, resize}
use carf_lib.Net.Buffer.Grow.{Appends, append-Appends, copy_to_lem, length-copy_to}
use carf_lib.Net.Buffer.View.{length-contents}
use carf_lib.Net.TcpConnection.{
  TcpConnection, Received, received, drained, store, read_once, read_loop, read_into, handle_read,
  message,
}

-- Input that leaves room is stored as `append` stores it.
store-append : (b : Buffer) (bs : Bytes) → length bs < writable_bytes b → store b bs ≡ append b bs
unfolding store append grow
store-append b bs h =
    let not_full : (length bs == writable_bytes b) ≡ false = ground arith in
    let fits : leb (length bs) (writable_bytes b) ≡ true = ground arith in rw (not_full, fits)

-- What reading `bs` leaves, when all of it is kept.
pub record Receives (c : TcpConnection) (bs : Bytes) (d : TcpConnection) : Type 0 where
  pub valid : IsValid d.read_buffer
  pub more : contents d.read_buffer ≡ contents c.read_buffer ++ bs
  pub same_write : d.write_buffer ≡ c.write_buffer
  pub same_timer : d.timer ≡ c.timer
  pub same_visited : d.visited ≡ c.visited
  pub same_writing : d.writing ≡ c.writing
  pub same_et : d.et ≡ c.et

-- Chunks of at least one byte, and what the calls of `read` return until the socket is drained.
abbrev pub joined : List (ℕ × Bytes) → Bytes
joined [] = []
joined ((x, bs) ∷ rest) = (x ∷ bs) ++ joined rest

abbrev pub reads : List (ℕ × Bytes) → List Received
reads [] = drained ∷ []
reads ((x, bs) ∷ rest) = received (x ∷ bs) ∷ reads rest

store-Appends :
    (b : Buffer) (bs : Bytes)
    → IsValid b
    → length bs < writable_bytes b
    → (b' : Buffer) × (store b bs ≡ some b')
      × Appends b bs b'
      × (writable_bytes b ≤ writable_bytes b' + length bs)
store-Appends b bs v h =
    let (b', appended, a) = append-Appends b bs v (inl (omega arith)) in
    (
      b',
      store-append b bs h ∙ appended,
      a,
      omega (
        arith,
        length-contents b v,
        length-contents b' a.valid,
        ap length a.more,
        length-append (contents b) bs,
        a.larger,
        a.same_read,
        v.ordered,
        a.valid.ordered,
      ),
    )

read_loop-Receives :
    (c : TcpConnection) (chunks : List (ℕ × Bytes))
    → IsValid c.read_buffer
    → length (joined chunks) < writable_bytes c.read_buffer
    → (d : TcpConnection) × (read_loop c (reads chunks) ≡ some (message d))
      × Receives c (joined chunks) d
unfolding read_loop
read_loop-Receives c [] v h = (
  c,
  refl,
  record {
    valid = v;
    more = sym (append-nil (contents c.read_buffer));
    same_write = refl;
    same_timer = refl;
    same_visited = refl;
    same_writing = refl;
    same_et = refl;
  },
)
read_loop-Receives c ((x, bs) ∷ rest) v h =
    let total = length-append (x ∷ bs) (joined rest) in
    let (b, stored, a, room) = store-Appends c.read_buffer (x ∷ bs) v (omega (arith, total)) in
    let (d, done, r) =
      read_loop-Receives (read_into c b) rest a.valid (omega (arith, total, room)) in
    (
      d,
      rw (stored, done),
      record {
        valid = r.valid;
        more =
            r.more
            ∙ ap (λ xs. xs ++ joined rest) a.more
            ∙ append_assoc (contents c.read_buffer) (x ∷ bs) (joined rest);
        same_write = r.same_write;
        same_timer = r.same_timer;
        same_visited = r.same_visited;
        same_writing = r.same_writing;
        same_et = r.same_et;
      },
    )

-- In mode 2, when the chunks that `read` returns until the socket is drained leave room in the buffer:
-- the message callback runs, on a connection whose read buffer has all of them behind what it had, in
-- order, whose mode, write buffer, watching and timer are as they were, and which was visited now.
pub handle_read_et :
    (c : TcpConnection) (now : ℕ) (chunks : List (ℕ × Bytes))
    → c.et ≡ true
    → IsValid c.read_buffer
    → length (joined chunks) < writable_bytes c.read_buffer
    → (d : TcpConnection) × (handle_read c now (reads chunks) ≡ some (message d))
      × Receives (record c { visited = now }) (joined chunks) d
unfolding handle_read
handle_read_et c now [] e v h =
    let (d, done, r) = read_loop-Receives (record c { visited = now }) [] v h in
    (d, if_true c.et _ _ e ∙ done, r)
handle_read_et c now ((x, bs) ∷ rest) e v h =
    let (d, done, r) = read_loop-Receives (record c { visited = now }) ((x, bs) ∷ rest) v h in
    (d, if_true c.et _ _ e ∙ done, r)

-- In mode 1 the same holds of the one chunk that is read.
pub handle_read_lt :
    (c : TcpConnection) (now x : ℕ) (bs : Bytes)
    → c.et ≡ false
    → IsValid c.read_buffer
    → length (x ∷ bs) < writable_bytes c.read_buffer
    → (d : TcpConnection) × (handle_read c now (received (x ∷ bs) ∷ []) ≡ some (message d))
      × Receives (record c { visited = now }) (x ∷ bs) d
unfolding handle_read read_once
handle_read_lt c now x bs e v h =
    let (b, stored, a, room) = store-Appends c.read_buffer (x ∷ bs) v h in
    (
      read_into (record c { visited = now }) b,
      rw (e, stored),
      record {
        valid = a.valid;
        more = a.more;
        same_write = refl;
        same_timer = refl;
        same_visited = refl;
        same_writing = refl;
        same_et = refl;
      },
    )

zeros_behind :
    (m n w : ℕ) (src : Bytes)
    → length src ≡ w
    → w + n ≤ m
    → take (w + n) (copy_to (replicate m 0) 0 src) ≡ src ++ replicate n 0
zeros_behind m n w src e h =
    let cut =
      copy_to_lem (replicate m 0) 0 src w (omega arith)
        (omega (arith, length-replicate m (zero))) in
    let behind : w + n - length src ≡ n = omega arith in
    rw (
      cut,
      take-append_split (w + n) src (drop w (replicate m 0)),
      behind,
      drop-replicate {A = ℕ} w m 0,
      take-replicate {A = ℕ} n (m - w) 0 (omega arith),
      take_all (w + n) src (omega arith),
    )

-- The input is stored as zeros.
abbrev pub StoredAsZeros : Buffer → Bytes → Type 0
StoredAsZeros b bs =
    (b' : Buffer) × (store b bs ≡ some b') × (contents b' ≡ contents b ++ replicate (length bs) 0)

take-copy_to :
    (xs bs : Bytes) (w : ℕ) → w + length bs ≤ length xs → take w (copy_to xs w bs) ≡ take w xs
take-copy_to xs bs w h = rw (copy_to_lem xs w bs (w + length bs) refl h) (
    take-append_le w (take w xs) (bs ++ drop (w + length bs) xs) (omega (arith, length-take w xs))
    ∙ take-take w w xs (omega arith))

stored_full :
    (xs bs : Bytes) (w : ℕ)
    → w ≤ length xs
    → length bs ≡ length xs - w
    → StoredAsZeros (record { bytes = xs; read_index = 0; write_index = w }) bs
unfolding store resize contents
stored_full xs bs w v h =
    let m : ℕ = length (copy_to xs w bs) * 2 in
    let same = length-copy_to xs w bs in
    let full : (length bs == length xs - w) ≡ true = ground arith in
    let forward : leb 0 (w - 0) ≡ true = ground arith in
    let a : w - 0 ≡ w = omega arith in
    let b : w + length bs - 0 ≡ w + length bs = omega arith in
    (
      record {
        bytes = copy_to (replicate m 0) 0 (take (w - 0 - 0) (copy_to xs w bs));
        read_index = 0;
        write_index = w + length bs;
      },
      rw (full, forward),
      rw (a, b, a)
          (zeros_behind m (length bs) w (take w (copy_to xs w bs))
              (omega (arith, length-take w (copy_to xs w bs), same)) (omega (arith, same))
            ∙ ap (λ ys. ys ++ replicate (length bs) 0) (take-copy_to xs bs w (omega arith))),
    )

-- Input that fills the buffer to its end, when nothing has been taken from the buffer yet, is lost:
-- the vector is resized before the write index is moved, so the content that was there is copied and
-- is followed by zeros in place of the bytes read.
pub store_full :
    (b : Buffer) (bs : Bytes)
    → IsValid b
    → b.read_index ≡ 0
    → length bs ≡ writable_bytes b
    → StoredAsZeros b bs
store_full b bs v e h =
    subst (λ r. StoredAsZeros (record b { read_index = r }) bs) (sym e)
      (stored_full b.bytes bs b.write_index v.inside h)
