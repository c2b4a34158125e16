-- ===== src/Tests/Samples.antt =====
-- The inputs that several tests share.
use carf_lib.Shared.{
  ◌≡◌, refl, true, false, some, List, [], ◌∷◌, arith, Bytes, codes, bytes_eq, is_space, length,
}
use carf_lib.Shared.StdMap.{assign, lookup, bytes_key}
use carf_lib.Net.Buffer.{Buffer, IsValid}
use carf_lib.Http.HttpRequest.{Version, method_of, get_header}
use carf_lib.Http.HttpResponse.{HttpResponse, StatusCode}
use carf_lib.Http.HttpResponse
use carf_lib.Http.HttpContext.RoundTrip.{Head, IsPrintable, request_of}
use carf_lib.Http.HttpServer.{
  Host, c_string, fits, page_of, read_all, fill_response, default_http_callback, closes,
}

-- A vector that is full of one text, unread.
abbrev pub filled : Bytes → Buffer
filled s = record { bytes = s; read_index = 0; write_index = length s }

pub filled-IsValid : (s : Bytes) → IsValid (filled s)
filled-IsValid s = omega arith

abbrev pub hello : Buffer
hello = record { bytes = codes "hello world"; read_index = 2; write_index = 8 }

pub hello-IsValid : IsValid hello
hello-IsValid = omega arith

-- GET /a?b HTTP/1.1 with one header.
abbrev pub get_head : Head
get_head = record {
  method = codes "GET";
  path = codes "/a";
  query = codes "?b";
  version = Version.http11;
  headers = (codes "Host", codes "me") ∷ [];
}

-- POST /p HTTP/1.0 with the given announcement of a length.
abbrev pub post_head : List (Bytes × Bytes) → Head
post_head headers = record {
  method = codes "POST";
  path = codes "/p";
  query = [];
  version = Version.http10;
  headers = headers;
}

abbrev pub length_header : Bytes → List (Bytes × Bytes)
length_header n = (codes "Content-Length", n) ∷ []

pub get_head-IsPrintable : IsPrintable get_head
unfolding is_space
get_head-IsPrintable = ground arith

pub post_head-IsPrintable : IsPrintable (post_head (length_header (codes "3")))
unfolding is_space
post_head-IsPrintable = ground arith

pub post_head_longer-IsPrintable : IsPrintable (post_head (length_header (codes "5")))
unfolding is_space
post_head_longer-IsPrintable = ground arith

pub post_head_bare-IsPrintable : IsPrintable (post_head [])
post_head_bare-IsPrintable = ground arith

-- Every file holds "hi".
abbrev pub host : Host
host = record {
  working_dir = codes "/srv";
  open_file = λ name. some (some (codes "hi") ∷ []);
  query = λ statement. true;
}

abbrev pub answer : HttpResponse
answer = record {
  headers = (codes "Server", codes "Carflib") ∷ [];
  status_code = StatusCode.ok_200;
  status_message = codes "OK";
  close_connection = false;
  body = codes "hi";
}

pub answered :
    default_http_callback host []
      (request_of get_head)
      (HttpResponse.fresh (closes (request_of get_head)))
    ≡ some (answer, [])
unfolding default_http_callback page_of bytes_eq fits c_string fill_response read_all assign closes
    method_of get_header lookup
answered = refl
