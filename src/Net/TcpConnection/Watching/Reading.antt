-- ===== src/Net/TcpConnection/Watching/Reading.antt =====
-- What `handleRead` leaves of the flags of a connection.
use carf_lib.Shared.{
  ℕ, ◌-◌, ◌≡◌, refl, subst, inl, inr, true, some, List, [], ◌∷◌, arith, ◌==◌, Bool-cases,
  >>=-eq-some, some_eq,
}
use carf_lib.Shared.StdMap.{nat_key}
use carf_lib.Net.Buffer.{Buffer}
use carf_lib.Net.TcpConnection.{
  TcpConnection, Received, received, drained, broken, Outcome, closed, message, handle_close,
  handle_read, read_once, read_loop, read_into, store,
}

-- The handler kept the flags that the channel has.
pub record KeepsFlags (c d : TcpConnection) : Type 0 where
  pub same_et : d.et ≡ c.et
  pub same_disabled : d.disabled ≡ c.disabled
  pub same_writing : d.writing ≡ c.writing
  pub same_kept : d.write_buffer ≡ c.write_buffer

-- What the loop of `handleRead()` leaves: the connection is closed, or its flags are kept.
abbrev pub WasRead : TcpConnection → Outcome → Type 0
WasRead c (closed d) = d.disabled ≡ true
WasRead c (message d) = KeepsFlags c d

KeepsFlags-refl : (c : TcpConnection) → KeepsFlags c c
KeepsFlags-refl c = record {
  same_et = refl;
  same_disabled = refl;
  same_writing = refl;
  same_kept = refl;
}

WasRead-seen :
    (c : TcpConnection) (now : ℕ) (o : Outcome)
    → WasRead (record c { visited = now }) o
    → WasRead c o
WasRead-seen c now (closed d) h = h
WasRead-seen c now (message d) h = record {
  same_et = h.same_et;
  same_disabled = h.same_disabled;
  same_writing = h.same_writing;
  same_kept = h.same_kept;
}

WasRead-into :
    (c : TcpConnection) (b : Buffer) (o : Outcome) → WasRead (read_into c b) o → WasRead c o
WasRead-into c b (closed d) h = h
WasRead-into c b (message d) h = record {
  same_et = h.same_et;
  same_disabled = h.same_disabled;
  same_writing = h.same_writing;
  same_kept = h.same_kept;
}

WasRead-closed : (c : TcpConnection) → WasRead c (closed (handle_close c))
WasRead-closed c = refl

read_loop-WasRead :
    (c : TcpConnection) (rs : List Received) (o : Outcome) → read_loop c rs ≡ some o → WasRead c o
unfolding read_loop
read_loop-WasRead c [] o e = absurd cc
read_loop-WasRead c (received [] ∷ rest) o e = subst (WasRead c) (some_eq e) (WasRead-closed c)
read_loop-WasRead c (received (x ∷ bs) ∷ rest) o e =
    let (b, stored, later) = >>=-eq-some (store c.read_buffer (x ∷ bs)) _ e in
    WasRead-into c b o (read_loop-WasRead (read_into c b) rest o later)
read_loop-WasRead c (drained ∷ rest) o e = subst (WasRead c) (some_eq e) (KeepsFlags-refl c)
read_loop-WasRead c (broken ∷ rest) o e = elim (Bool-cases (c.read_buffer.write_index == 0)) [
  | inl first ↦ absurd (let no = rw first at e in cc)
  | inr back ↦
      let b : Buffer = record c.read_buffer { write_index = c.read_buffer.write_index - 1 } in
      WasRead-into c b o (read_loop-WasRead (read_into c b) rest o (rw back at e))
]

read_once-WasRead :
    (c : TcpConnection) (r : Received) (o : Outcome) → read_once c r ≡ some o → WasRead c o
unfolding read_once
read_once-WasRead c (received []) o e = subst (WasRead c) (some_eq e) (WasRead-closed c)
read_once-WasRead c (received (x ∷ bs)) o e =
    let (b, stored, later) = >>=-eq-some (store c.read_buffer (x ∷ bs)) _ e in
    subst (WasRead c) (some_eq later)
      (WasRead-into c b (message (read_into c b)) (KeepsFlags-refl (read_into c b)))
read_once-WasRead c drained o e = subst (WasRead c) (some_eq e) (KeepsFlags-refl c)
read_once-WasRead c broken o e = subst (WasRead c) (some_eq e) (KeepsFlags-refl c)

pub handle_read-WasRead :
    (c : TcpConnection) (now : ℕ) (rs : List Received) (o : Outcome)
    → handle_read c now rs ≡ some o
    → WasRead c o
unfolding handle_read
handle_read-WasRead c now [] o e = absurd cc
handle_read-WasRead c now (r ∷ rest) o e =
    let seen : TcpConnection = record c { visited = now } in
    WasRead-seen c now o (elim (Bool-cases c.et) [
      | inl edge ↦ read_loop-WasRead seen (r ∷ rest) o (ground arith)
      | inr level ↦ read_once-WasRead seen r o (ground arith)
    ])
