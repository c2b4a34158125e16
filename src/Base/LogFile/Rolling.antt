-- ===== src/Base/LogFile/Rolling.antt =====
-- What the rolling keeps, and the roll that the writing thread never makes.
use carf_lib.Shared.{
  ℕ, ◌+◌, ◌<◌, ◌≡◌, refl, sym, ap, ◌∙◌, Bool, true, false, List, [], ◌∷◌, ◌++◌, append-nil,
  append_assoc, arith, leb, Bytes, length, length-append,
}
use carf_lib.Base.LogFile.{LogFile, write_bytes, roll_if_due, append_file, asy_write_one, asy_write}

-- All bytes that were written, in order.
abbrev pub everything : List Bytes → Bytes → Bytes
everything [] file = file
everything (c ∷ closed) file = c ++ everything closed file

everything-append :
    (closed : List Bytes) (file s : Bytes)
    → everything closed (file ++ s) ≡ everything closed file ++ s
everything-append [] file s = refl
everything-append (c ∷ closed) file s =
    ap (λ xs. c ++ xs) (everything-append closed file s)
    ∙ sym (append_assoc c (everything closed file) s)

everything-roll :
    (closed : List Bytes) (file : Bytes)
    → everything (closed ++ file ∷ []) [] ≡ everything closed file
everything-roll [] file = append-nil file
everything-roll (c ∷ closed) file = ap (λ xs. c ++ xs) (everything-roll closed file)

-- The byte count is right, and stays below the size at which the file is rolled.
pub record Inv (l : LogFile) : Type 0 where
  pub counted : l.written_bytes ≡ length l.file
  pub below : 0 < l.roll_size → l.written_bytes < l.roll_size

roll_if_due-Inv :
    (l : LogFile) (now : ℕ) → l.written_bytes ≡ length l.file → Inv (roll_if_due l now)
unfolding roll_if_due
roll_if_due-Inv l now c = record { counted = ground arith; below = λ h. ground arith }

roll_if_due-everything :
    (l : LogFile) (now : ℕ)
    → everything (roll_if_due l now).closed (roll_if_due l now).file ≡ everything l.closed l.file
unfolding roll_if_due
roll_if_due-everything l now = ground (arith, everything-roll l.closed l.file)

-- A write in either mode, in a log whose byte count is right: the files together hold what they held
-- and then the message, the count is right again, and the open file is below the size to roll at.
pub append_file-Inv :
    (l : LogFile) (now : ℕ) (s : Bytes)
    → Inv l
    → (everything (append_file l now s).closed (append_file l now s).file
        ≡ everything l.closed l.file ++ s)
      × Inv (append_file l now s)
      × (everything (asy_write_one l now s).closed (asy_write_one l now s).file
          ≡ everything l.closed l.file ++ s)
      × Inv (asy_write_one l now s)
unfolding append_file asy_write_one
append_file-Inv l now s v =
    let more = everything-append l.closed l.file s in
    let counts : l.written_bytes + length s ≡ length (l.file ++ s) =
      omega (arith, v.counted, length-append l.file s) in
    let counting : LogFile = write_bytes (record l { count = l.count + 1 }) s in
    let plain : LogFile = write_bytes l s in
    (
      roll_if_due-everything counting now ∙ more,
      roll_if_due-Inv counting now counts,
      roll_if_due-everything plain now ∙ more,
      roll_if_due-Inv plain now counts,
    )

abbrev pub total : List (Bool × ℕ × Bytes) → ℕ
total [] = 0
total ((over, now, s) ∷ queue) = length s + total queue

asy_write_one-stays :
    (l : LogFile) (now : ℕ) (s : Bytes)
    → l.count ≡ 0
    → 0 < l.check_every_n
    → l.written_bytes + length s < l.roll_size
    → asy_write_one l now s ≡ write_bytes l s
unfolding asy_write_one roll_if_due
asy_write_one-stays l now s c p h =
    let small : leb l.roll_size (l.written_bytes + length s) ≡ false = ground arith in
    let early : leb l.check_every_n l.count ≡ false = ground arith in rw (small, early)

-- The writing thread never counts its writes. So from a fresh count, with `checkEveryN` above zero, no
-- day that begins makes it roll the file: while the bytes stay below the size, it closes no file,
-- whatever the times at which it writes.
pub asy_write-no_daily_roll :
    (l : LogFile) (queue : List (Bool × ℕ × Bytes))
    → l.count ≡ 0
    → 0 < l.check_every_n
    → l.written_bytes + total queue < l.roll_size
    → (asy_write l queue).closed ≡ l.closed
unfolding asy_write
asy_write-no_daily_roll l [] c p h = refl
asy_write-no_daily_roll l ((true, now, s) ∷ queue) c p h = refl
asy_write-no_daily_roll l ((false, now, s) ∷ queue) c p h =
    ap (λ m. (asy_write m queue).closed) (asy_write_one-stays l now s c p (omega arith))
    ∙ asy_write-no_daily_roll (write_bytes l s) queue c p (omega arith)
