-- ===== src/Http/HttpRequest/Trim.antt =====
-- `addHeader` strips the spaces around a value, and `getHeader` finds it.
use carf_lib.Shared.{
  ◌≡◌, refl, sym, ap, ◌∙◌, true, false, [], ◌∷◌, ◌++◌, arith, if◌then◌else◌, Bytes, bytes_eq,
  is_space,
}
use mathlib.Core.List.{reverse, reverse-append, reverse-cons, reverse-reverse}
use carf_lib.Shared.StdMap.{lookup-assign, bytes_key}
use carf_lib.Http.HttpRequest.{
  HttpRequest, drop_spaces, drop_last_spaces, header_value, add_header, get_header,
}

abbrev pub AllSpace : Bytes → Type 0
AllSpace [] = Unit {0}
AllSpace (c ∷ cs) = (is_space c ≡ true) × AllSpace cs

abbrev pub StartsPlain : Bytes → Type 0
StartsPlain [] = Unit {0}
StartsPlain (c ∷ cs) = is_space c ≡ false

-- No space at either end.
pub record IsTrimmed (s : Bytes) : Type 0 where
  pub front : StartsPlain s
  pub back : StartsPlain (reverse s)

AllSpace-append : (a b : Bytes) → AllSpace a → AllSpace b → AllSpace (a ++ b)
AllSpace-append [] b h k = k
AllSpace-append (c ∷ a) b h k = (h.0, AllSpace-append a b h.1 k)

AllSpace-reverse : (a : Bytes) → AllSpace a → AllSpace (reverse a)
AllSpace-reverse [] h = tt
AllSpace-reverse (c ∷ a) h =
    rw (reverse-cons c a) (AllSpace-append (reverse a) (c ∷ []) (AllSpace-reverse a h.1) (h.0, tt))

drop_spaces-append : (pre s : Bytes) → AllSpace pre → drop_spaces (pre ++ s) ≡ drop_spaces s
unfolding drop_spaces
drop_spaces-append [] s h = refl
drop_spaces-append (c ∷ pre) s h = rw h.0 (drop_spaces-append pre s h.1)

drop_spaces_plain : (s : Bytes) → StartsPlain s → drop_spaces s ≡ s
unfolding drop_spaces
drop_spaces_plain [] h = refl
drop_spaces_plain (c ∷ s) h = rw h

drop_spaces_all : (s : Bytes) → AllSpace s → drop_spaces s ≡ []
unfolding drop_spaces
drop_spaces_all [] h = refl
drop_spaces_all (c ∷ s) h = rw h.0 (drop_spaces_all s h.1)

drop_last_spaces-append :
    (s post : Bytes) → StartsPlain (reverse s) → AllSpace post → drop_last_spaces (s ++ post) ≡ s
unfolding drop_last_spaces
drop_last_spaces-append s post h k =
    ap (λ t. reverse (drop_spaces t)) (reverse-append s post)
    ∙ ap reverse (drop_spaces-append (reverse post) (reverse s) (AllSpace-reverse post k))
    ∙ ap reverse (drop_spaces_plain (reverse s) h)
    ∙ reverse-reverse s

drop_spaces_text :
    (v post : Bytes)
    → StartsPlain v
    → AllSpace post
    → drop_last_spaces (drop_spaces (v ++ post)) ≡ drop_last_spaces (v ++ post)
drop_spaces_text [] post h k =
    rw (drop_spaces_all post k) (empty ∙ sym (drop_last_spaces-append [] post tt k))
  where
    empty : drop_last_spaces [] ≡ []
    empty = unfold drop_last_spaces drop_spaces in refl
drop_spaces_text (c ∷ v) post h k = ap drop_last_spaces (drop_spaces_plain (c ∷ (v ++ post)) h)

pub header_value_trim :
    (pre v post : Bytes)
    → AllSpace pre
    → IsTrimmed v
    → AllSpace post
    → header_value (pre ++ (v ++ post)) ≡ v
unfolding header_value
header_value_trim pre v post a t b =
    ap drop_last_spaces (drop_spaces-append pre (v ++ post) a)
    ∙ drop_spaces_text v post t.front b
    ∙ drop_last_spaces-append v post t.back b

-- A value between runs of white space is stored without them under its field, in place of the value
-- that the field had, and no other field changes.
pub get_header-add_header :
    (r : HttpRequest) (field pre v post other : Bytes)
    → AllSpace pre
    → IsTrimmed v
    → AllSpace post
    → get_header (add_header r field (pre ++ (v ++ post))) other
      ≡ (if bytes_eq field other then v else get_header r other)
unfolding get_header add_header
get_header-add_header r field pre v post other a t b =
    rw (header_value_trim pre v post a t b, lookup-assign field other v r.headers) (ground arith)
