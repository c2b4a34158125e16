-- ===== src/Base/Logger/Lines.antt =====
-- A line of the log is whole, or overruns the buffer.
use carf_lib.Shared.{
  ℕ, ◌+◌, ◌-◌, ◌^◌, ◌≤◌, ◌<◌, ◌≡◌, refl, sym, ap, ap₂, ◌∙◌, subst, ◌⊎◌, inl, inr, Bool, true, false,
  ◌&&◌, none, some, [], ◌∷◌, ◌++◌, append_assoc, arith, ltb, leb, Bool-cases, Bytes, length, take,
  drop, length-append, length-take, take-append, take_all,
}
use carf_lib.Shared.Decimal.{decimal, length-decimal}
use carf_lib.Net.Buffer.{copy_to}
use carf_lib.Net.Buffer.Grow.{length-copy_to, copy_to_lem}
use carf_lib.Base.Logger.{
  LogLevel, Moment, header, rank, buf_size, Logger, put_string, print, make, log, tail, finish,
  write_line, log_macro,
}

-- The buffer holds `text` from its start.
pub record Holds (l : Logger) (text : Bytes) : Type 0 where
  pub size : length l.buf ≡ buf_size
  pub place : l.write_length ≡ length text
  pub starts : take (length text) l.buf ≡ text

-- A string that fits is put behind the text, and one that does not overruns the buffer.
put_string_lem :
    (buf text s : Bytes)
    → length buf ≡ buf_size
    → take (length text) buf ≡ text
    → (length text + length s < buf_size
        → (buf' : Bytes) × (put_string buf (length text) s ≡ some buf')
          × (length buf' ≡ buf_size)
          × (take (length text + length s) buf' ≡ text ++ s))
      × (buf_size ≤ length text + length s → put_string buf (length text) s ≡ none)
unfolding put_string
put_string_lem buf text s size starts = (
  λ h.
      let fits : leb (length text + length s + 1) (length buf) ≡ true = ground arith in
      let zeroed = length-append s (0 ∷ []) in
      let written =
        copy_to_lem buf (length text) (s ++ (0 ∷ [])) (length text + length s + 1) (omega arith)
          (omega arith) in
      let rest = drop (length text + length s + 1) buf in
      let regrouped : text ++ ((s ++ (0 ∷ [])) ++ rest) ≡ (text ++ s) ++ (0 ∷ rest) =
        ap (λ t. text ++ t) (append_assoc s (0 ∷ []) rest) ∙ sym (append_assoc text s (0 ∷ rest)) in
      (
        copy_to buf (length text) (s ++ (0 ∷ [])),
        rw fits,
        length-copy_to buf (length text) (s ++ (0 ∷ [])) ∙ size,
        ap (take (length text + length s))
              (written ∙ ap (λ t. t ++ ((s ++ (0 ∷ [])) ++ rest)) starts ∙ regrouped)
            ∙ ap (λ n. take n ((text ++ s) ++ (0 ∷ rest))) (sym (length-append text s))
            ∙ take-append (text ++ s) (0 ∷ rest),
      ),
  λ h. let over : leb (length text + length s + 1) (length buf) ≡ false = ground arith in rw over,
)

print_lem :
    (l : Logger) (text s : Bytes) (limit : ℕ)
    → Holds l text
    → buf_size < limit
    → (length text + length s < buf_size
        → (l' : Logger) × (print l limit s ≡ some l')
          × Holds l' (text ++ s)
          × (l'.filename ≡ l.filename)
          × (l'.line ≡ l.line))
      × (buf_size ≤ length text + length s → print l limit s ≡ none)
unfolding print
print_lem l text s limit v h =
    let (fits, over) = put_string_lem l.buf text (take (limit - 1) s) v.size v.starts in
    (
      λ k.
          let all = take_all (limit - 1) s (omega arith) in
          let (buf', put, size, starts) =
            fits (subst (λ t. length text + length t < buf_size) (sym all) k) in
          let put' : put_string l.buf l.write_length (take (limit - 1) s) ≡ some buf' =
            ap (λ n. put_string l.buf n (take (limit - 1) s)) v.place ∙ put in
          (
            record l { buf = buf'; write_length = l.write_length + length s },
            rw put',
            record {
              size = size;
              place = omega (arith, length-append text s, v.place);
              starts =
                  ap (λ n. take n buf') (length-append text s)
                  ∙ ap (λ t. take (length text + length t) buf') (sym all)
                  ∙ starts
                  ∙ ap (λ t. text ++ t) all;
            },
            refl,
            refl,
          ),
      λ k.
          let long : buf_size ≤ length text + length (take (limit - 1) s) =
            rw (length-take (limit - 1) s) (ground arith) in
          let put' : put_string l.buf l.write_length (take (limit - 1) s) ≡ none =
            ap (λ n. put_string l.buf n (take (limit - 1) s)) v.place ∙ over long in
          rw put',
    )

length-tail :
    (file : Bytes) (line : ℕ) → length file < 128 → line < 2 ^ 31 → length (tail file line) ≤ 255
unfolding tail
length-tail file line h k = omega (
  arith,
  length-append file (b':' ∷ (decimal line ++ (10 ∷ []))),
  length-append (decimal line) (10 ∷ []),
  length-decimal 9 line (omega arith),
)

finish_lem :
    (l : Logger) (text : Bytes)
    → Holds l text
    → length l.filename < 128
    → l.line < 2 ^ 31
    → (length text + length (tail l.filename l.line) < buf_size
        → finish l ≡ some (text ++ tail l.filename l.line))
      × (buf_size ≤ length text + length (tail l.filename l.line) → finish l ≡ none)
unfolding finish
finish_lem l text v h k =
    let all = take_all 255 (tail l.filename l.line) (length-tail l.filename l.line h k) in
    let (fits, over) = put_string_lem l.buf text (tail l.filename l.line) v.size v.starts in
    let at : put_string l.buf l.write_length (take 255 (tail l.filename l.line))
        ≡ put_string l.buf (length text) (tail l.filename l.line) =
      ap₂ (put_string l.buf) v.place all in
    (
      λ f.
          let (buf', put, _, starts) = fits f in
          rw (at ∙ put) (
            ap (λ n. some (take (n + length (tail l.filename l.line)) buf')) v.place
            ∙ ap some starts),
      λ f. rw (at ∙ over f),
    )

write_line_lem :
    (bufsiz line : ℕ) (raw file message : Bytes) (level : LogLevel) (now : Moment)
    → length raw ≡ buf_size
    → buf_size + 1 < bufsiz
    → length file < 128
    → line < 2 ^ 31
    → let head = header now level in
      (length head + length message + length (tail file line) < buf_size
        → write_line bufsiz raw file line level now message
          ≡ some (head ++ message ++ tail file line))
      × (buf_size ≤ length head + length message + length (tail file line)
          → write_line bufsiz raw file line level now message ≡ none)
unfolding write_line make log
write_line_lem bufsiz line raw file message level now size h k below =
    let head = header now level in
    let short : ltb (length file) 128 ≡ true = ground arith in
    let start : Logger = record { filename = file; line = line; buf = raw; write_length = 0 } in
    let empty : Holds start [] = record { size = size; place = refl; starts = refl } in
    let (fits, over) = print_lem start [] head bufsiz empty (omega arith) in
    let made : make bufsiz raw file line level now ≡ print start bufsiz head = rw short in
    elim (Bool-cases (ltb (length head) buf_size)) [
      | inr out ↦ (λ f. absurd (ground arith), λ f. rw (made, over (ground arith)))
      | inl small ↦
          let (l, printed, v, same_file, same_line) = fits (ground arith) in
          let (fits2, over2) = print_lem l head message (bufsiz - 1) v (omega arith) in
          elim (Bool-cases (ltb (length head + length message) buf_size)) [
            | inr out ↦ (λ f. absurd (ground arith), λ f. rw (made, printed, over2 (ground arith)))
            | inl some_room ↦
                let (l', logged, w, file', line') = fits2 (ground arith) in
                let file2 : l'.filename ≡ file = file' ∙ same_file in
                let line2 : l'.line ≡ line = line' ∙ same_line in
                let tails = ap₂ tail file2 line2 in
                let (whole, cut) =
                  finish_lem l' (head ++ message) w (subst (λ f. length f < 128) (sym file2) k)
                    (subst (λ n. n < 2 ^ 31) (sym line2) below) in
                let size2 = length-append head message in
                let same = ap length tails in
                (
                  λ f.
                      rw (made, printed, logged)
                        (whole (omega arith) ∙ ap (λ t. some ((head ++ message) ++ t)) tails),
                  λ f. rw (made, printed, logged) (cut (omega arith)),
                )
          ]
    ]

-- A macro of the log, with the header, message and tail of its line: where its level is below the one
-- that is set, or the log is off, nothing is output and nothing fails; else, if the three parts have
-- less than 1024 bytes together, the line that is output is the three parts, whole, and if they have
-- more, the buffer is overrun. The limits given to `snprintf` and `vsnprintf` are above 1024.
pub log_macro_lem :
    (g level : LogLevel) (log_t : Bool) (bufsiz line : ℕ) (raw file message : Bytes) (now : Moment)
    → length raw ≡ buf_size
    → buf_size + 1 < bufsiz
    → length file < 128
    → line < 2 ^ 31
    → let output = log_macro g log_t bufsiz raw file line level now message in
      let head = header now level in
      let size = length head + length message + length (tail file line) in
      ((rank level < rank g) ⊎ (log_t ≡ false) → output ≡ some [])
      × (rank g ≤ rank level
          → log_t ≡ true
          → (size < buf_size → output ≡ some ((head ++ message ++ tail file line) ∷ []))
            × (buf_size ≤ size → output ≡ none))
unfolding log_macro
log_macro_lem g level log_t bufsiz line raw file message now size h k below =
    let (whole, over) = write_line_lem bufsiz line raw file message level now size h k below in
    (
      λ off. elim off [
        | inl low ↦ let lower : leb (rank g) (rank level) ≡ false = ground arith in rw lower
        | inr silent ↦ let no : (leb (rank g) (rank level) && log_t) ≡ false = ground arith in rw no
      ],
      λ up on.
          let yes : (leb (rank g) (rank level) && log_t) ≡ true = ground arith in
          (λ f. rw (yes, whole f), λ f. rw (yes, over f)),
    )
