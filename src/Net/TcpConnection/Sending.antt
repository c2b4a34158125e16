-- ===== src/Net/TcpConnection/Sending.antt =====
-- The bytes that a connection is given to send reach the kernel in order, none lost.
use carf_lib.Shared.{
  ℕ, ◌≤◌, ◌≡◌, refl, sym, ap, ◌∙◌, ◌⊎◌, inl, inr, true, false, Option, some, List, [], ◌∷◌, ◌++◌,
  append-nil, append_assoc, arith, ltb, ◌==◌, Bool-cases, ◌>>=◌, Bytes, length, take, drop,
  take-append-drop, length-drop, drop_all,
}
use carf_lib.Net.Buffer.{Buffer, IsValid, contents, readable_bytes, add_read_index}
use carf_lib.Net.Buffer.View.{length-contents, contents-add_read_index}
use carf_lib.Net.Buffer.Grow.{append-Appends, CanAppend}
use carf_lib.Net.TcpConnection.{
  TcpConnection, Written, wrote, again, failed, count_of, keep_rest, send, write_once,
}

-- `write` takes no more than it is given.
abbrev pub Within : ℕ → Written → Type 0
Within len r = count_of r ≤ len

-- What is kept, and not yet taken by the kernel.
abbrev pub pending : TcpConnection → Bytes
pending c = contents c.write_buffer

-- The buffer is well formed, and while the channel is not watched nothing is kept.
pub record IsSending (c : TcpConnection) : Type 0 where
  pub valid : IsValid c.write_buffer
  pub watched : c.writing ≡ false → readable_bytes c.write_buffer ≡ 0

-- The output of an operation goes before what is left: `before` is what was due.
pub record Passes (before : Bytes) (c : TcpConnection) (out : Bytes) : Type 0 where
  pub in_order : out ++ pending c ≡ before
  pub sending : IsSending c

add_read_index-contents :
    (b : Buffer) (n : ℕ)
    → IsValid b
    → n ≤ readable_bytes b
    → take n (contents b) ++ contents (add_read_index b n) ≡ contents b
add_read_index-contents b n v h =
    rw (contents-add_read_index b n v h) (take-append-drop n (contents b))

write_once-Passes :
    (c : TcpConnection) (r : Written)
    → IsSending c
    → Within (readable_bytes c.write_buffer) r
    → Passes (pending c) (write_once c r).0 (write_once c r).1
unfolding write_once
write_once-Passes c again v h = record { in_order = refl; sending = v }
write_once-Passes c failed v h = record { in_order = refl; sending = v }
write_once-Passes c (wrote n) v h = elim (Bool-cases (ltb 0 n)) [
  | inl some_taken ↦ rw some_taken (record {
    in_order = add_read_index-contents c.write_buffer n v.valid h;
    sending = record {
      valid = omega (arith, v.valid.ordered, v.valid.inside);
      watched = λ e. ground (arith, v.watched);
    };
  })
  | inr none_taken ↦ rw none_taken (record { in_order = refl; sending = v })
]

no_bytes : (xs : Bytes) → length xs ≡ 0 → xs ≡ []
no_bytes [] e = refl
no_bytes (x ∷ xs) e = absurd (omega arith)

-- What was kept goes out first, or nothing was kept.
after_kept : (p s : Bytes) (n : ℕ) → (n ≡ 0) ⊎ (length p ≡ 0) → take n s ++ (p ++ drop n s) ≡ p ++ s
after_kept p s n (inl e) = rw e
after_kept p s n (inr e) = rw (no_bytes p e) (take-append-drop n s)

CanAppend-less : (b : Buffer) (m n : ℕ) → m ≤ n → CanAppend b n → CanAppend b m
CanAppend-less b m n h (inl fits) = inl (omega arith)
CanAppend-less b m n h (inr fresh) = inr fresh

keep_rest-Passes :
    (c : TcpConnection) (s : Bytes) (n : ℕ)
    → IsSending c
    → n ≤ length s
    → (n ≡ 0) ⊎ (readable_bytes c.write_buffer ≡ 0)
    → CanAppend c.write_buffer (length s)
    → (c' : TcpConnection) × (out : Bytes) × (keep_rest c s n ≡ some (c', out))
      × Passes (pending c ++ s) c' out
unfolding keep_rest
keep_rest-Passes c s n v h k room =
    let due = after_kept (pending c) s n (ground (arith, length-contents c.write_buffer v.valid)) in
    elim (Bool-cases (ltb n (length s))) [
      | inl rest_left ↦
          let (b, appended, a) = append-Appends c.write_buffer (drop n s) v.valid (
            CanAppend-less c.write_buffer (length (drop n s)) (length s)
              (omega (arith, length-drop n s)) room) in
          (
            record c { write_buffer = b; writing = true },
            take n s,
            rw (rest_left, appended),
            record {
              in_order = ap (λ xs. take n s ++ xs) a.more ∙ due;
              sending = record { valid = a.valid; watched = λ e. cc };
            },
          )
      | inr all_taken ↦ (
        c,
        take n s,
        rw all_taken,
        record {
          in_order = rw (drop_all n s (ground arith), append-nil (pending c)) at due;
          sending = v;
        },
      )
    ]

-- `send` of `s` where the write buffer has the room or is fresh: it succeeds, what the kernel takes
-- followed by what is kept is what was kept before followed by `s`, the buffer stays well formed, and
-- the channel is watched for writing while anything is kept.
pub send-Passes :
    (c : TcpConnection) (s : Bytes) (r : Written)
    → IsSending c
    → Within (length s) r
    → CanAppend c.write_buffer (length s)
    → (c' : TcpConnection) × (out : Bytes) × (send c s r ≡ some (c', out))
      × Passes (pending c ++ s) c' out
unfolding send
send-Passes c s r v h room = elim (Bool-cases (readable_bytes c.write_buffer == 0)) [
  | inl idle ↦ rw idle (keep_rest-Passes c s (count_of r) v h (inr (ground arith)) room)
  | inr busy ↦ rw busy (keep_rest-Passes c s 0 v (omega arith) (inl refl) room)
]

-- What a connection is asked to do: to send bytes, or to write because the channel is ready.
pub data Event : Type 0 where
  sends : Bytes → Written → Event
  ready : Written → Event

-- The bytes of all the calls of `send`, in order.
abbrev pub given : List Event → Bytes
given [] = []
given (sends s r ∷ es) = s ++ given es
given (ready r ∷ es) = given es

unfoldable pub handle : TcpConnection → Event → Option (TcpConnection × Bytes)
handle c (sends s r) = send c s r
handle c (ready r) = some (write_once c r)

unfoldable pub handle_all : TcpConnection → List Event → Option (TcpConnection × Bytes)
handle_all c [] = some (c, [])
handle_all c (e ∷ es) =
    handle c e >>= λ (d, out). handle_all d es >>= λ (d', rest). some (d', out ++ rest)

-- The results of `write` keep to what it is given, and each `send` finds the room or a fresh buffer.
abbrev pub Allowed : TcpConnection → List Event → Type 0
Allowed c [] = Unit {0}
Allowed c (sends s r ∷ es) =
    Within (length s) r
    × CanAppend c.write_buffer (length s)
    × ((d : TcpConnection) (out : Bytes) → send c s r ≡ some (d, out) → Allowed d es)
Allowed c (ready r ∷ es) = Within (readable_bytes c.write_buffer) r × Allowed (write_once c r).0 es

Passes-then :
    (p s g : Bytes) (d e : TcpConnection) (out rest : Bytes)
    → Passes (p ++ s) d out
    → Passes (pending d ++ g) e rest
    → Passes (p ++ (s ++ g)) e (out ++ rest)
Passes-then p s g d e out rest h k = record {
  in_order =
      append_assoc out rest (pending e)
      ∙ ap (λ xs. out ++ xs) k.in_order
      ∙ sym (append_assoc out (pending d) g)
      ∙ ap (λ xs. xs ++ g) h.in_order
      ∙ append_assoc p s g;
  sending = k.sending;
}

-- In mode 1, for any sequence of calls of `send` and of writes when the channel is ready, in which
-- `write` takes no more than it is given and every `send` finds room in the write buffer or a buffer
-- nothing has been read from: every call succeeds, and the bytes that the kernel took, followed by
-- those still kept, are those kept at first followed by all bytes given, in order, and while any are
-- kept the channel is watched for writing.
pub handle_all-Passes :
    (c : TcpConnection) (es : List Event)
    → IsSending c
    → Allowed c es
    → (d : TcpConnection) × (out : Bytes) × (handle_all c es ≡ some (d, out))
      × Passes (pending c ++ given es) d out
unfolding handle_all handle
handle_all-Passes c [] v a =
    (c, [], refl, record { in_order = sym (append-nil (pending c)); sending = v })
handle_all-Passes c (sends s r ∷ es) v (within, room, later) =
    let (d, out, sent, h) = send-Passes c s r v within room in
    let (e, rest, done, k) = handle_all-Passes d es h.sending (later d out sent) in
    (e, out ++ rest, rw (sent, done), Passes-then (pending c) s (given es) d e out rest h k)
handle_all-Passes c (ready r ∷ es) v (within, later) =
    let h = write_once-Passes c r v within in
    let d = (write_once c r).0 in
    let (e, rest, done, k) = handle_all-Passes d es h.sending later in
    (
      e,
      (write_once c r).1 ++ rest,
      rw done,
      Passes-then (pending c) [] (given es) d e (write_once c r).1 rest
          (rw (append-nil (pending c)) h) k,
    )
