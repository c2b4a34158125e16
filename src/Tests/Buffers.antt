-- ===== src/Tests/Buffers.antt =====
-- net/Buffer at concrete buffers.
use carf_lib.Shared.{◌≡◌, refl, ◌↔◌, inr, none, some, ◌∷◌, ◌++◌, arith, Bytes, codes, length}
use carf_lib.Net.Buffer.{Buffer, contents, append, retrieve_len, find_crlf, crlf_in}
use carf_lib.Net.Buffer.Grow.{append-Appends, Appends}
use carf_lib.Net.Buffer.Search.{find_crlf_iff}
use carf_lib.Tests.Samples.{filled, filled-IsValid, hello}

append-Appends_example :
    (b' : Buffer) × (append (filled (codes "abc")) (codes "defgh") ≡ some b')
    × Appends (filled (codes "abc")) (codes "defgh") b'
append-Appends_example =
    append-Appends (filled (codes "abc")) (codes "defgh") (filled-IsValid (codes "abc"))
      (inr (refl, omega arith))

hello-contents : contents (retrieve_len hello 4).1 ≡ codes "wo"
unfolding retrieve_len contents
hello-contents = refl

find_crlf_iff_example : (find_crlf (filled (codes "ab\r\ncd")) ≡ some 2) ↔ (
    (line : Bytes) × (rest : Bytes) × (contents (filled (codes "ab\r\ncd"))
      ≡ line ++ 13 ∷ 10 ∷ rest)
    × (crlf_in line ≡ none)
    × (length line ≡ 2))
find_crlf_iff_example = find_crlf_iff (filled (codes "ab\r\ncd")) 2

find_crlf_sample : find_crlf (filled (codes "ab\r\ncd")) ≡ some 2
unfolding find_crlf
find_crlf_sample = refl
