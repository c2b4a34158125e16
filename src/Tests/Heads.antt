-- ===== src/Tests/Heads.antt =====
-- Two heads that list the same headers in another order.
use carf_lib.Shared.{◌≡◌, refl, ◌↔◌, List, [], ◌∷◌, arith, Bytes, codes, bytes_eq, is_space}
use carf_lib.Shared.StdMap.{bytes_key}
use carf_lib.Http.HttpRequest.{Version, method_of}
use carf_lib.Http.HttpContext.{initial, parse_request}
use carf_lib.Net.Buffer.{contents}
use carf_lib.Http.HttpContext.Refines.{view}
use carf_lib.Http.HttpContext.RoundTrip.{Head, IsPrintable, render}
use carf_lib.Http.HttpContext.Headers.{SameHeaders, parse_request-SameHeaders}
use carf_lib.Tests.Samples.{filled, filled-IsValid}

abbrev one_way : List (Bytes × Bytes)
one_way =
    (codes "Host", codes "me") ∷ (codes "Accept", codes "a") ∷ (codes "Host", codes "you") ∷ []

abbrev other_way : List (Bytes × Bytes)
other_way = (codes "Host", codes "you") ∷ (codes "Accept", codes "a") ∷ []

abbrev head : List (Bytes × Bytes) → Head
head hs = record {
  method = codes "GET";
  path = codes "/a";
  query = codes "?b";
  version = Version.http11;
  headers = hs;
}

head-IsPrintable : IsPrintable (head one_way)
unfolding is_space
head-IsPrintable = ground arith

other-IsPrintable : IsPrintable (head other_way)
unfolding is_space
other-IsPrintable = ground arith

parse_request-SameHeaders_example :
    (view (parse_request initial (filled (render (head one_way) [])))
      ≡ view (parse_request initial (filled (render (head other_way) []))))
    ↔ SameHeaders one_way other_way
parse_request-SameHeaders_example =
    parse_request-SameHeaders (head one_way) other_way [] (filled (render (head one_way) []))
      (filled (render (head other_way) [])) head-IsPrintable other-IsPrintable
      (unfold method_of bytes_eq in λ e. cc) (filled-IsValid (render (head one_way) []))
      (filled-IsValid (render (head other_way) [])) (unfold contents in refl)
      (unfold contents in refl)
