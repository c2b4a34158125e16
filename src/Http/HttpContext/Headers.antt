-- ===== src/Http/HttpContext/Headers.antt =====
-- The header map of a request (http/HttpRequest.h, `addHeader`) forgets the order of the header lines.
use carf_lib.Shared.{
  ◌≡◌, refl, sym, ap, ◌∙◌, ◌≢◌, ◌↔◌, true, Option, none, some, List, [], ◌∷◌, if◌then◌else◌, Bytes,
  bytes_eq,
}
use mathlib.Core.Quot
use mathlib.Core.Quot.{Quot, Quot-set}
use carf_lib.Shared.StdMap.{assign, lookup, bytes_key, lookup-assign}
use carf_lib.Shared.StdMap.Sorted.{IsSorted, assign-IsSorted}
use carf_lib.Shared.StdMap.Extensional.{map_ext}
use carf_lib.Net.Buffer.{Buffer, IsValid, contents}
use carf_lib.Http.HttpRequest.{Method, method_of}
use carf_lib.Http.HttpContext.{Outcome, parsed, threw, hung, initial, parse_request, ParseState}
use carf_lib.Http.HttpContext.Refines.{view}
use carf_lib.Http.HttpContext.RoundTrip.{
  Head, IsPrintable, render, request_of, store, parse_request-render,
}

-- The value in the last line of a name.
abbrev pub last_value : Bytes → List (Bytes × Bytes) → Option Bytes → Option Bytes
last_value name [] before = before
last_value name ((f, v) ∷ hs) before =
    last_value name hs (if bytes_eq f name then some v else before)

-- Header lines that mean the same.
abbrev pub SameHeaders : List (Bytes × Bytes) → List (Bytes × Bytes) → Type 0
SameHeaders hs hs' = (name : Bytes) → last_value name hs none ≡ last_value name hs' none

lookup-store :
    (name : Bytes) (hs m : List (Bytes × Bytes))
    → lookup name (store hs m) ≡ last_value name hs (lookup name m)
lookup-store name [] m = refl
lookup-store name ((f, v) ∷ hs) m =
    lookup-store name hs (assign f v m) ∙ ap (last_value name hs) (lookup-assign f name v m)

store-IsSorted : (hs m : List (Bytes × Bytes)) → IsSorted m → IsSorted (store hs m)
store-IsSorted [] m s = s
store-IsSorted ((f, v) ∷ hs) m s = store-IsSorted hs (assign f v m) (assign-IsSorted f v m s)

lookup-store_nil :
    (name : Bytes) (hs : List (Bytes × Bytes)) → lookup name (store hs []) ≡ last_value name hs none
unfolding lookup
lookup-store_nil name hs = lookup-store name hs []

pub store_same : (hs hs' : List (Bytes × Bytes)) → SameHeaders hs hs' → store hs [] ≡ store hs' []
store_same hs hs' same =
    map_ext (store hs []) (store hs' []) (store-IsSorted hs [] tt) (store-IsSorted hs' [] tt)
      (λ name. lookup-store_nil name hs ∙ same name ∙ sym (lookup-store_nil name hs'))

same_of_store : (hs hs' : List (Bytes × Bytes)) → store hs [] ≡ store hs' [] → SameHeaders hs hs'
same_of_store hs hs' e name =
    sym (lookup-store_nil name hs) ∙ ap (lookup name) e ∙ lookup-store_nil name hs'

-- The header lines up to what they mean.
abbrev pub HeaderMap : Type 0
HeaderMap = Quot SameHeaders

unfoldable pub stored : HeaderMap → List (Bytes × Bytes)
stored = Quot.lift (hlevel) (λ hs. store hs []) store_same

-- The header map of a request depends on what its lines mean only, and two requests whose lines mean
-- different things have different maps: from header lines, up to the last value of each name, to maps is
-- a function, and it takes no two of them to one map.
pub stored_inj : (x y : HeaderMap) → stored x ≡ stored y → x ≡ y
unfolding stored
stored_inj =
    Quot.ind (λ _. hlevel Quot-set)
      λ hs. Quot.ind (λ _. hlevel Quot-set) λ hs' e. Quot.sound (same_of_store hs hs' e)

abbrev headers_of : Outcome Bytes → List (Bytes × Bytes)
headers_of (parsed ok c rest) = c.request.headers
headers_of threw = []
headers_of hung = []

-- Two printable heads that differ in their header lines only, whose method is not POST, each with the same
-- bytes behind it in the buffer of a fresh parser: they are read to the same request, parser and rest
-- exactly if every name has the same value in its last line of the one as of the other, so if neither
-- the order of lines of different names nor a line replaced by a later one matters.
pub parse_request-SameHeaders :
    (q : Head) (hs : List (Bytes × Bytes)) (more : Bytes) (buf buf' : Buffer)
    → IsPrintable q
    → IsPrintable (record q { headers = hs })
    → method_of q.method ≢ Method.post
    → IsValid buf
    → IsValid buf'
    → contents buf ≡ render q more
    → contents buf' ≡ render (record q { headers = hs }) more
    → (view (parse_request initial buf) ≡ view (parse_request initial buf'))
      ↔ SameHeaders q.headers hs
parse_request-SameHeaders q hs more buf buf' p p' m v v' e e' =
    let one = parse_request-render q more buf p m v e in
    let two = parse_request-render (record q { headers = hs }) more buf' p' m v' e' in
    (
      λ same. same_of_store q.headers hs (ap headers_of (sym one ∙ same ∙ two)),
      λ same.
          one
          ∙ ap
              (λ (h : List (Bytes × Bytes)).
                parsed true
                  (record {
                    request = record (request_of q) { headers = h };
                    parse_state = ParseState.got_all;
                  })
                  more)
              (store_same q.headers hs same)
          ∙ sym two,
    )
