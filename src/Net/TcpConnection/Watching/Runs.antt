-- ===== src/Net/TcpConnection/Watching/Runs.antt =====
-- Whatever happens at the descriptor of a connection, the kernel watches it as it should.
use carf_lib.Shared.{
  if_true, if_false, ℕ, ◌≡◌, refl, sym, ap, ◌∙◌, ◌⊎◌, inl, inr, true, false, Option, none, some,
  List, [], ◌∷◌, ◌++◌, Bool-cases, Option-cases, Bytes,
}
use carf_lib.Shared.StdMap.{nat_key}
use carf_lib.Net.Buffer.{readable_bytes}
use carf_lib.Net.Epoll.{Events}
use carf_lib.Net.TcpConnection.{
  TcpConnection, Written, handle_write_et, Received, Outcome, closed, message, handle_read,
}
use carf_lib.Net.TcpConnection.Watching.{
  Wired, write_level, write_edge, write_wired, after_read, read_wired, Happening, arrives, has_room,
  report, happen, happen_all,
}
use carf_lib.Net.TcpConnection.Watching.Live.{
  asked, IsLive, IsShut, IsAlone, IsAlone-refl, IsAlone-trans,
}
use carf_lib.Net.TcpConnection.Watching.Steps.{stay-IsLive, disable_all-IsShut}
use carf_lib.Net.TcpConnection.Watching.Handlers.{
  Answers, answer-IsLive, write_level-IsLive, write_edge-IsLive,
}
use carf_lib.Net.TcpConnection.Watching.Reading.{WasRead, handle_read-WasRead}

-- The connection's handler returns, and every call of `send` in its callback does.
abbrev pub IsRead : TcpConnection → List (Bytes × Written) → Option Outcome → Type 0
IsRead c answers none = ⊥
IsRead c answers (some (closed d)) = Unit {0}
IsRead c answers (some (message d)) = Answers d answers

abbrev pub IsWritten : TcpConnection → List Written → Type 0
IsWritten c [] = ⊥
IsWritten c (r ∷ rest) =
    c.et ≡ true
    → (d : TcpConnection) × (out : Bytes) × (handle_write_et c (r ∷ rest) ≡ some (d, out))

-- While the connection is open; for room, while the channel is watched for it.
abbrev pub IsDefined : TcpConnection → Happening → Type 0
IsDefined c (arrives now rs answers) = c.disabled ≡ false → IsRead c answers (handle_read c now rs)
IsDefined c (has_room ws) = c.disabled ≡ false → c.writing ≡ true → IsWritten c ws

unfoldable pub Allowed : Wired → List Happening → Type 0
Allowed w [] = Unit {0}
Allowed w (x ∷ rest) =
    IsDefined w.conn x
    × ((w' : Wired) (out : Bytes) → happen w x ≡ some (w', out) → Allowed w' rest)

after_read-Ends :
    (w : Wired) (o : Outcome) (answers : List (Bytes × Written))
    → IsLive w
    → WasRead w.conn o
    → IsRead w.conn answers (some o)
    → (w' : Wired) × (out : Bytes) × (after_read w o answers ≡ some (w', out))
      × (IsLive w' ⊎ IsShut w')
      × IsAlone w w'
unfolding after_read
after_read-Ends w (closed d) answers v off ok =
    let (w', done, shut, alone) = disable_all-IsShut w d v off in (w', [], rw done, inr shut, alone)
after_read-Ends w (message d) answers v k ok =
    let as_before : asked d ≡ asked w.conn = rw (k.same_et, k.same_writing) in
    let live =
      stay-IsLive w d v as_before (k.same_disabled ∙ v.enabled)
        (λ off. ap readable_bytes k.same_kept ∙ v.kept (sym k.same_writing ∙ off)) in
    let (w', out, done, u, alone) = answer-IsLive (record w { conn = d }) answers live ok in
    (w', out, done, inl u, IsAlone-trans (IsAlone-refl w d) alone)

read_wired-Ends :
    (w : Wired) (now : ℕ) (rs : List Received) (answers : List (Bytes × Written))
    → IsLive w
    → IsRead w.conn answers (handle_read w.conn now rs)
    → (w' : Wired) × (out : Bytes) × (read_wired w now rs answers ≡ some (w', out))
      × (IsLive w' ⊎ IsShut w')
      × IsAlone w w'
unfolding read_wired
read_wired-Ends w now rs answers v ok = elim (Option-cases (handle_read w.conn now rs)) [
  | inl e ↦ absurd (rw e at ok)
  | inr (o, e) ↦
      let (w', out, done, u, alone) =
        after_read-Ends w o answers v (handle_read-WasRead w.conn now rs o e) (rw e at ok) in
      (w', out, rw (e, done), u, alone)
]

write_wired-Ends :
    (w : Wired) (ws : List Written)
    → IsLive w
    → w.conn.writing ≡ true
    → IsWritten w.conn ws
    → (w' : Wired) × (out : Bytes) × (write_wired w ws ≡ some (w', out))
      × (IsLive w' ⊎ IsShut w')
      × IsAlone w w'
write_wired-Ends w [] v on ok = absurd ok
write_wired-Ends w (r ∷ rest) v on ok = elim (Bool-cases w.conn.et) [
  | inl edge ↦
      let (d, out, e) = ok edge in
      let (w', out', done, u, alone) = write_edge-IsLive w (r ∷ rest) d out v on e in
      (
        w',
        out',
        if_true w.conn.et (write_edge w (r ∷ rest)) (write_level w (r ∷ rest)) edge ∙ done,
        inl u,
        alone,
      )
  | inr level ↦
      let (w', out, done, u, alone) = write_level-IsLive w r rest v in
      (
        w',
        out,
        if_false w.conn.et (write_edge w (r ∷ rest)) (write_level w (r ∷ rest)) level ∙ done,
        inl u,
        alone,
      )
]

report-Ends :
    (w : Wired) (e : Events) (x : Happening)
    → IsLive w
    → w.channel.events ≡ e
    → IsDefined w.conn x
    → (w' : Wired) × (out : Bytes) × (report w e x ≡ some (w', out))
      × (IsLive w' ⊎ IsShut w')
      × IsAlone w w'
unfolding report
report-Ends w e (arrives now rs answers) v same ok =
    let listens : e.read_event ≡ true = ap (λ k. k.read_event) (sym same ∙ v.in_step) in
    let (w', out, done, u, alone) = read_wired-Ends w now rs answers v (ok v.enabled) in
    (w', out, rw listens done, u, alone)
report-Ends w e (has_room ws) v same ok =
    let asks : e.write_event ≡ w.conn.writing = ap (λ k. k.write_event) (sym same ∙ v.in_step) in
    elim (Bool-cases e.write_event) [
      | inl waits ↦
          let (w', out, done, u, alone) =
            write_wired-Ends w ws v (sym asks ∙ waits) (ok v.enabled (sym asks ∙ waits)) in
          (w', out, rw waits done, u, alone)
      | inr not_asked ↦ (w, [], rw not_asked, inl v, IsAlone-refl w w.conn)
    ]

happen-Ends :
    (w : Wired) (x : Happening)
    → IsLive w ⊎ IsShut w
    → IsDefined w.conn x
    → (w' : Wired) × (out : Bytes) × (happen w x ≡ some (w', out))
      × (IsLive w' ⊎ IsShut w')
      × IsAlone w w'
unfolding happen
happen-Ends w x (inl v) ok =
    let (w', out, done, u, alone) = report-Ends w w.channel.events x v refl ok in
    (w', out, rw (v.told, happen) done, u, alone)
happen-Ends w x (inr s) ok = (w, [], rw (s.gone, happen), inr s, IsAlone-refl w w.conn)

pub happen_all-Ends :
    (w : Wired) (xs : List Happening)
    → IsLive w ⊎ IsShut w
    → Allowed w xs
    → (w' : Wired) × (out : Bytes) × (happen_all w xs ≡ some (w', out))
      × (IsLive w' ⊎ IsShut w')
      × IsAlone w w'
unfolding happen_all Allowed
happen_all-Ends w [] v ok = (w, [], refl, v, IsAlone-refl w w.conn)
happen_all-Ends w (x ∷ rest) v (ok, later) =
    let (u, out, first, live, alone) = happen-Ends w x v ok in
    let (w', more, others, last, apart) = happen_all-Ends u rest live (later u out first) in
    (w', out ++ more, rw (first, others), last, IsAlone-trans alone apart)
