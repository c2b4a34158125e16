-- ===== src/Tests/Parser.antt =====
-- The request parser at concrete requests.
use carf_lib.Shared.{◌≡◌, refl, true, [], ◌++◌, Bytes, codes, bytes_eq, is_space}
use carf_lib.Shared.Stoi.{stoi}
use carf_lib.Shared.StdMap.{lookup, assign}
use carf_lib.Net.Buffer.{contents, crlf_in, starts_crlf, find_crlf}
use carf_lib.Http.HttpRequest.{HttpRequest, method_of, get_header}
use carf_lib.Http.HttpContext.{ParseState, initial, parsed, parse_request, parse_loop, pass}
use carf_lib.Http.HttpContext.Refines.{view, OutcomeValid, parse_request-view}
use carf_lib.Http.HttpContext.Text.{parse_text}
use carf_lib.Http.HttpContext.Terminates.{Ends, parse_request-Ends}
use carf_lib.Http.HttpContext.Chunks.{parse_request-chunks}
use carf_lib.Http.HttpContext.RoundTrip.{render, request_of, parse_request-render}
use carf_lib.Http.HttpContext.Body.{parse_request-post, with_body}
use carf_lib.Tests.Samples.{
  filled, filled-IsValid, get_head, post_head, length_header, get_head-IsPrintable,
  post_head-IsPrintable,
}

abbrev get_text : Bytes
get_text = codes "GET /a?b HTTP/1.1\r\nHost: me\r\n\r\nmore"

get_text_lem : get_text ≡ render get_head (codes "more")
get_text_lem = refl

contents-filled : contents (filled get_text) ≡ get_text
unfolding contents
contents-filled = refl

parse_request-render_example :
    view (parse_request initial (filled get_text))
    ≡ parsed true
        (record { request = request_of get_head; parse_state = ParseState.got_all })
        (codes "more")
unfolding method_of bytes_eq contents
parse_request-render_example =
    parse_request-render get_head (codes "more") (filled get_text) get_head-IsPrintable (λ e. cc)
      (filled-IsValid get_text) refl

parse_request-view_example :
    (view (parse_request initial (filled get_text))
      ≡ parse_text initial (contents (filled get_text)))
    × OutcomeValid (parse_request initial (filled get_text))
parse_request-view_example = parse_request-view initial (filled get_text) (filled-IsValid get_text)

parse_request-Ends_example : Ends (view (parse_request initial (filled get_text)))
parse_request-Ends_example = parse_request-Ends initial (filled get_text) (filled-IsValid get_text)

-- The first read ends within the request line, between CR and LF.
abbrev first_part : Bytes
first_part = codes "GET /a?b HTTP/1.1\r"

abbrev second_part : Bytes
second_part = codes "\nHost: me\r\n\r\nmore"

parse_request-chunks_example :
    view (parse_request initial (filled (first_part ++ second_part)))
    ≡ view (parse_request initial (filled get_text))
unfolding parse_request parse_loop pass find_crlf crlf_in starts_crlf contents
parse_request-chunks_example =
    parse_request-chunks initial initial (filled first_part) (filled first_part)
      (filled (first_part ++ second_part)) (filled get_text) second_part (filled-IsValid first_part)
      (filled-IsValid (first_part ++ second_part)) (filled-IsValid get_text) refl tt refl refl

parse_request-post_example :
    view (
      parse_request initial (filled (render (post_head (length_header (codes "3"))) (codes "x=1"))))
    ≡ parsed true
        (record {
          request = with_body (request_of (post_head (length_header (codes "3")))) (codes "x=1");
          parse_state = ParseState.got_all;
        })
        []
unfolding method_of bytes_eq contents stoi get_header lookup assign crlf_in is_space
parse_request-post_example =
    parse_request-post (post_head (length_header (codes "3"))) b'x' (codes "=1")
      (filled (render (post_head (length_header (codes "3"))) (codes "x=1"))) post_head-IsPrintable
      refl refl refl (filled-IsValid (render (post_head (length_header (codes "3"))) (codes "x=1")))
      refl

-- Three bytes of five: the body stays due.
abbrev waiting : HttpRequest
waiting = request_of (post_head (length_header (codes "5")))
