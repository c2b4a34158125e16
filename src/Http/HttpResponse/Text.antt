-- ===== src/Http/HttpResponse/Text.antt =====
-- `appendToBuffer` writes the response as one text.
use carf_lib.Shared.{
  ℕ, ◌^◌, ◌<◌, ◌≡◌, refl, sym, ap, ◌∙◌, inl, inr, Option, some, List, [], ◌∷◌, ◌++◌, append-nil,
  append_assoc, arith, if◌then◌else◌, Bool-cases, ◌>>=◌, Bytes, codes, length, length-append,
  take_all,
}
use carf_lib.Shared.Decimal.{decimal, length-decimal}
use carf_lib.Net.Buffer.{Buffer, IsValid, contents, append, size}
use carf_lib.Net.Buffer.Grow.{append-Appends}
use carf_lib.Http.HttpResponse.{
  HttpResponse, StatusCode, code_of, crlf, snprintf_32, append_headers, append_connection,
  append_to_buffer,
}

-- A buffer that nothing was read from: there `append` always succeeds.
pub record IsFresh (b : Buffer) : Type 0 where
  pub valid : IsValid b
  pub unread : b.read_index ≡ 0
  pub positive : 0 < size b

-- The computation succeeds, and adds `s` to the content.
abbrev pub Writes : Buffer → Bytes → Option Buffer → Type 0
Writes b s o = (b' : Buffer) × (o ≡ some b') × (contents b' ≡ contents b ++ s) × IsFresh b'

pub append-Writes : (b : Buffer) (s : Bytes) → IsFresh b → Writes b s (append b s)
append-Writes b s f =
    let (b', e, a) = append-Appends b s f.valid (inr (f.unread, f.positive)) in
    (
      b',
      e,
      a.more,
      record {
        valid = a.valid;
        unread = a.same_read ∙ f.unread;
        positive = omega (arith, a.larger, f.positive);
      },
    )

-- One write after another.
pub >>=-Writes :
    (b : Buffer) (s t : Bytes) (m : Option Buffer) (k : Buffer → Option Buffer)
    → Writes b s m
    → ((b' : Buffer) → IsFresh b' → Writes b' t (k b'))
    → Writes b (s ++ t) (m >>= k)
>>=-Writes b s t m k (b', e, c, f) h =
    let (b'', e', c', f') = h b' f in
    (b'', rw e e', c' ∙ ap (λ u. u ++ t) c ∙ append_assoc (contents b) s t, f')

abbrev pub header_text : List (Bytes × Bytes) → Bytes
header_text [] = []
header_text ((field, value) ∷ rest) = field ++ (codes ": " ++ (value ++ (crlf ++ header_text rest)))

abbrev pub connection_text : HttpResponse → Bytes
connection_text r =
    if r.close_connection
    then codes "Connection: close" ++ crlf
    else (codes "Content-Length: " ++ (decimal (length r.body) ++ crlf))
      ++ (codes "Connection: Keep-Alive" ++ crlf)

-- Status line, connection lines, headers, an empty line, the body.
abbrev pub response_text : HttpResponse → Bytes
response_text r =
    (codes "HTTP/1.1 " ++ (decimal (code_of r.status_code) ++ codes " "))
    ++ (r.status_message
        ++ (crlf ++ (connection_text r ++ (header_text r.headers ++ (crlf ++ r.body)))))

append_headers-Writes :
    (hs : List (Bytes × Bytes)) (b : Buffer)
    → IsFresh b
    → Writes b (header_text hs) (append_headers b hs)
unfolding append_headers
append_headers-Writes [] b f = (b, refl, sym (append-nil (contents b)), f)
append_headers-Writes ((field, value) ∷ hs) b f =
    >>=-Writes b field _ (append b field) _ (append-Writes b field f) λ o1 f1.
      >>=-Writes o1 (codes ": ") _ (append o1 (codes ": ")) _ (append-Writes o1 (codes ": ") f1)
        λ o2 f2. >>=-Writes o2 value _ (append o2 value) _ (append-Writes o2 value f2) λ o3 f3.
          >>=-Writes o3 crlf _ (append o3 crlf) _ (append-Writes o3 crlf f3)
            λ o4 f4. append_headers-Writes hs o4 f4

-- `char buf[32]` holds the line while the body is below 10 ^ 13 bytes.
length_line_fits :
    (n : ℕ)
    → n < 10 ^ 13
    → snprintf_32 (codes "Content-Length: " ++ (decimal n ++ crlf))
      ≡ codes "Content-Length: " ++ (decimal n ++ crlf)
unfolding snprintf_32
length_line_fits n h =
    take_all 31 (codes "Content-Length: " ++ (decimal n ++ crlf))
      (omega (arith, length-append (decimal n) crlf, length-decimal 12 n h))

status_line_fits :
    (s : StatusCode)
    → snprintf_32 (codes "HTTP/1.1 " ++ (decimal (code_of s) ++ codes " "))
      ≡ codes "HTTP/1.1 " ++ (decimal (code_of s) ++ codes " ")
unfolding snprintf_32 code_of decimal
status_line_fits StatusCode.unknown = refl
status_line_fits _ = refl

append_connection-Writes :
    (b : Buffer) (r : HttpResponse)
    → length r.body < 10 ^ 13
    → IsFresh b
    → Writes b (connection_text r) (append_connection b r)
unfolding append_connection
append_connection-Writes b r h f = elim (Bool-cases r.close_connection) [
  | inl e ↦ rw (e, append_connection) (append-Writes b (codes "Connection: close" ++ crlf) f)
  | inr e ↦
      let line : Bytes = codes "Content-Length: " ++ (decimal (length r.body) ++ crlf) in
      rw (e, length_line_fits (length r.body) h, append_connection)
        (>>=-Writes b line (codes "Connection: Keep-Alive" ++ crlf) (append b line) _
          (append-Writes b line f)
          (λ o1 f1. append-Writes o1 (codes "Connection: Keep-Alive" ++ crlf) f1))
]

-- Into a buffer that nothing was read from, `appendToBuffer` always succeeds, and adds exactly the text
-- of the response to the content, whole lines included, for a body below 10 ^ 13 bytes.
pub append_to_buffer-Writes :
    (r : HttpResponse) (b : Buffer)
    → length r.body < 10 ^ 13
    → IsFresh b
    → Writes b (response_text r) (append_to_buffer r b)
unfolding append_to_buffer
append_to_buffer-Writes r b h f = rw (status_line_fits r.status_code) (
    >>=-Writes b _ _ _ _ (append-Writes b _ f) λ o1 f1.
      >>=-Writes o1 r.status_message _ _ _ (append-Writes o1 r.status_message f1) λ o2 f2.
        >>=-Writes o2 crlf _ _ _ (append-Writes o2 crlf f2) λ o3 f3.
          >>=-Writes o3 (connection_text r) _ _ _ (append_connection-Writes o3 r h f3) λ o4 f4.
            >>=-Writes o4 (header_text r.headers) _ _ _ (append_headers-Writes r.headers o4 f4)
              λ o5 f5.
                >>=-Writes o5 crlf _ _ _ (append-Writes o5 crlf f5)
                  λ o6 f6. append-Writes o6 r.body f6)
