-- ===== src/Net/TcpConnection/Watching/Handlers.antt =====
-- What each handler of a connection leaves of it, and of what the kernel watches.
use carf_lib.Shared.{
  ℕ, suc, ◌-◌, ◌≡◌, refl, sym, ap, ◌∙◌, subst, ◌⊎◌, inl, inr, true, false, some, List, [], ◌∷◌,
  ◌++◌, arith, ltb, ◌==◌, if◌then◌else◌, Bool-cases, >>=-eq-some, some_eq, Bytes, length, take,
  drop,
}
use carf_lib.Shared.StdMap.{nat_key}
use carf_lib.Net.Buffer.{Buffer, append, contents, readable_bytes, add_read_index}
use carf_lib.Net.Epoll.{Change, enable_writing, disable_writing}
use carf_lib.Net.TcpConnection.{
  TcpConnection, Written, wrote, again, failed, count_of, send, keep_rest, write_once, write_loop,
  handle_write_et,
}
use carf_lib.Net.TcpConnection.Watching.{
  Wired, operate_all, write_once_changes, write_loop_changes, send_wired, answer, write_level,
  write_edge,
}
use carf_lib.Net.TcpConnection.Watching.Live.{asked, IsLive, IsAlone, IsAlone-refl, IsAlone-trans}
use carf_lib.Net.TcpConnection.Watching.Steps.{
  stay-IsLive, enable_writing-IsLive, disable_writing-IsLive,
}

keep_rest-flags :
    (c d : TcpConnection) (s out : Bytes) (n : ℕ)
    → keep_rest c s n ≡ some (d, out)
    → ((ltb n (length s) ≡ true) × (d.writing ≡ true) × (d.et ≡ c.et) × (d.disabled ≡ c.disabled))
      ⊎ ((ltb n (length s) ≡ false) × (d ≡ c))
unfolding keep_rest
keep_rest-flags c d s out n e = elim (Bool-cases (ltb n (length s))) [
  | inl more ↦
      let (b, appended, rest) = >>=-eq-some (append c.write_buffer (drop n s)) _ (rw more at e) in
      let same = ap (λ p. p.0) (some_eq rest) in
      inl (
        more,
        sym (ap (λ x. x.writing) same),
        sym (ap (λ x. x.et) same),
        sym (ap (λ x. x.disabled) same),
      )
  | inr all ↦ inr (all, sym (ap (λ p. p.0) (some_eq (rw all at e))))
]

-- `send` succeeds with the channel where it does without.
send_wired-IsLive :
    (w : Wired) (s : Bytes) (r : Written) (c : TcpConnection) (out : Bytes)
    → IsLive w
    → send w.conn s r ≡ some (c, out)
    → (w' : Wired) × (send_wired w s r ≡ some (w', out)) × (w'.conn ≡ c) × IsLive w' × IsAlone w w'
unfolding send_wired send operate_all
send_wired-IsLive w s r c out v e =
    let n : ℕ = if readable_bytes w.conn.write_buffer == 0 then count_of r else 0 in
    elim (keep_rest-flags w.conn c s out n e) [
      | inl (more, on, et, same) ↦
          let (w', done, is_c, u, alone) = enable_writing-IsLive w c v on et (same ∙ v.enabled) in
          (w', rw e (rw more (rw done)), is_c, u, alone)
      | inr (all, same) ↦ (
        record w { conn = c },
        rw e (rw all),
        refl,
        stay-IsLive w c v (ap asked same) (ap (λ d. d.disabled) same ∙ v.enabled)
            (subst (λ d. d.writing ≡ false → readable_bytes d.write_buffer ≡ 0) (sym same) v.kept),
        IsAlone-refl w c,
      )
    ]

-- Every call of `send` in the callback is defined for the connection.
unfoldable pub Answers : TcpConnection → List (Bytes × Written) → Type 0
Answers c [] = Unit {0}
Answers c ((s, r) ∷ rest) =
    (d : TcpConnection) × (out : Bytes) × (send c s r ≡ some (d, out)) × Answers d rest

pub answer-IsLive :
    (w : Wired) (answers : List (Bytes × Written))
    → IsLive w
    → Answers w.conn answers
    → (w' : Wired) × (out : Bytes) × (answer w answers ≡ some (w', out)) × IsLive w' × IsAlone w w'
unfolding answer Answers
answer-IsLive w [] v h = (w, [], refl, v, IsAlone-refl w w.conn)
answer-IsLive w ((s, r) ∷ rest) v (d, out, sent, later) =
    let (u, done, same, live, alone) = send_wired-IsLive w s r d out v sent in
    let (w', more, others, last, apart) =
      answer-IsLive u rest live (subst (λ x. Answers x rest) (sym same) later) in
    (w', out ++ more, rw (done, others), last, IsAlone-trans alone apart)

write_once-wrote :
    (c : TcpConnection) (n : ℕ)
    → ltb 0 n ≡ true
    → write_once c (wrote n) ≡ (
      record c {
        write_buffer = add_read_index c.write_buffer n;
        writing = if n == readable_bytes c.write_buffer then false else c.writing;
      },
      take n (contents c.write_buffer),
    )
unfolding write_once
write_once-wrote c n more = rw more

write_level-done :
    (w w' : Wired) (r : Written) (rest : List Written) (c : TcpConnection) (out : Bytes)
    (xs : List Change)
    → write_once w.conn r ≡ (c, out)
    → write_once_changes w.conn r ≡ xs
    → operate_all (record w { conn = c }) xs ≡ some w'
    → write_level w (r ∷ rest) ≡ some (w', out)
unfolding write_level
write_level-done w w' r rest c out xs wrote_as asks done = rw (wrote_as, asks, done)

-- A write that leaves nothing takes the channel's write event away, and no other write changes it.
pub write_level-IsLive :
    (w : Wired) (r : Written) (rest : List Written)
    → IsLive w
    → (w' : Wired) × (out : Bytes) × (write_level w (r ∷ rest) ≡ some (w', out))
      × IsLive w'
      × IsAlone w w'
unfolding write_level write_once operate_all
write_level-IsLive w again rest v = (w, [], refl, v, IsAlone-refl w w.conn)
write_level-IsLive w failed rest v = (w, [], refl, v, IsAlone-refl w w.conn)
write_level-IsLive w (wrote n) rest v = elim (Bool-cases (ltb 0 n)) [
  | inl more ↦ elim (Bool-cases (n == readable_bytes w.conn.write_buffer)) [
    | inl all ↦
        let c : TcpConnection = record w.conn {
          write_buffer = add_read_index w.conn.write_buffer n;
          writing = false;
        } in
        let as_c : write_once w.conn (wrote n) ≡ (c, take n (contents w.conn.write_buffer)) =
          write_once-wrote w.conn n more ∙ rw all in
        let (w', done, _, u, alone) =
          disable_writing-IsLive w c v refl refl v.enabled (ground arith) in
        (
          w',
          take n (contents w.conn.write_buffer),
          write_level-done w w' (wrote n) rest c (take n (contents w.conn.write_buffer))
              (disable_writing ∷ []) as_c (rw (more, all)) done,
          u,
          alone,
        )
    | inr some_left ↦
        let c : TcpConnection = record w.conn {
          write_buffer = add_read_index w.conn.write_buffer n;
        } in
        (
          record w { conn = c },
          take n (contents w.conn.write_buffer),
          rw (more, some_left),
          stay-IsLive w c v refl v.enabled (λ e. ground (arith, v.kept)),
          IsAlone-refl w c,
        )
  ]
  | inr none_taken ↦ (w, [], rw none_taken, v, IsAlone-refl w w.conn)
]

write_loop-flags :
    (c d : TcpConnection) (to_send : ℕ) (ws : List Written) (out : Bytes)
    → c.writing ≡ true
    → write_loop c to_send ws ≡ some (d, out)
    → (d.writing ≡ true)
      × (d.et ≡ c.et)
      × (d.disabled ≡ c.disabled)
      × ((write_loop_changes to_send ws ≡ [])
          ⊎ (write_loop_changes to_send ws ≡ enable_writing ∷ []))
unfolding write_loop write_loop_changes
write_loop-flags c d to_send [] out on e = absurd cc
write_loop-flags c d to_send (wrote n ∷ rest) out on e = elim (Bool-cases (to_send == n)) [
  | inl all ↦
      let same = ap (λ p. p.0) (some_eq (rw all at e)) in
      (
        sym (ap (λ x. x.writing) same) ∙ on,
        sym (ap (λ x. x.et) same),
        sym (ap (λ x. x.disabled) same),
        inl (rw all),
      )
  | inr part ↦
      let c' : TcpConnection = record c { write_buffer = add_read_index c.write_buffer n } in
      let ((d', out'), others, last) =
        >>=-eq-some (write_loop c' (to_send - n) rest) _ (rw part at e) in
      let same = ap (λ p. p.0) (some_eq last) in
      let (on', et, dis, ch) =
        write_loop-flags c' d (to_send - n) rest out' on (others ∙ ap (λ x. some (x, out')) same) in
      (on', et, dis, rw part ch)
]
write_loop-flags c d to_send (again ∷ rest) out on e =
    let same = ap (λ p. p.0) (some_eq e) in
    (
      sym (ap (λ x. x.writing) same),
      sym (ap (λ x. x.et) same),
      sym (ap (λ x. x.disabled) same),
      inr refl,
    )
write_loop-flags c d to_send (failed ∷ rest) out on e =
    elim (Bool-cases (c.write_buffer.read_index == 0)) [
      | inl first ↦ absurd (let no = rw first at e in cc)
      | inr back ↦
          let b : Buffer = record c.write_buffer { read_index = c.write_buffer.read_index - 1 } in
          write_loop-flags (record c { write_buffer = b }) d (suc to_send) rest out on
            (rw back at e)
    ]

-- A handler that has the connection's flags as the channel has them, or that asks for room.
pub write_edge-IsLive :
    (w : Wired) (ws : List Written) (d : TcpConnection) (out : Bytes)
    → IsLive w
    → w.conn.writing ≡ true
    → handle_write_et w.conn ws ≡ some (d, out)
    → (w' : Wired) × (out : Bytes) × (write_edge w ws ≡ some (w', out)) × IsLive w' × IsAlone w w'
unfolding write_edge handle_write_et operate_all
write_edge-IsLive w ws d out v on e =
    let (on', et, dis, ch) =
      write_loop-flags w.conn d (readable_bytes w.conn.write_buffer) ws out on e in
    elim ch [
      | inl nothing ↦
          let as_before : asked d ≡ asked w.conn = rw (et, on', on) in
          (
            record w { conn = d },
            out,
            rw e (rw nothing),
            stay-IsLive w d v as_before (dis ∙ v.enabled) (λ off. absurd cc),
            IsAlone-refl w d,
          )
      | inr once ↦
          let (w', done, _, u, alone) = enable_writing-IsLive w d v on' et (dis ∙ v.enabled) in
          (w', out, rw e (rw (once) (rw done)), u, alone)
    ]
