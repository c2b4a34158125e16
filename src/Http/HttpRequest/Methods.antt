-- ===== src/Http/HttpRequest/Methods.antt =====
-- `setMethod` against `methodString`.
use carf_lib.Shared.{◌≡◌, refl, ap, ◌∙◌, ◌≢◌, ◌↔◌, arith, Bytes, codes, bytes_eq, bytes_eq_iff}
use carf_lib.Http.HttpRequest.{Method, method_of, method_string, HttpRequest, set_method}

-- Every text that the ladder tests is read back from `methodString`.
read_back : (m : Method) → m ≢ Method.connect → method_of (method_string m) ≡ m
unfolding method_of method_string bytes_eq
read_back Method.get h = refl
read_back Method.connect h = absurd (h refl)
read_back _ h = refl

only_text :
    (s : Bytes) (m : Method)
    → m ≢ Method.connect
    → m ≢ Method.path
    → method_of s ≡ m
    → s ≡ method_string m
unfolding method_of method_string
only_text s m c p e = ground (
  arith,
  bytes_eq_iff s (codes "GET"),
  bytes_eq_iff s (codes "POST"),
  bytes_eq_iff s (codes "HEAD"),
  bytes_eq_iff s (codes "PUT"),
  bytes_eq_iff s (codes "DELETE"),
  bytes_eq_iff s (codes "TRACE"),
  bytes_eq_iff s (codes "OPTIONS"),
  bytes_eq_iff s (codes "CONNET"),
)

-- A method other than CONNECT and PATH is set by its `methodString` and by no other text.
pub method_of-method_string :
    (s : Bytes) (m : Method)
    → m ≢ Method.connect
    → m ≢ Method.path
    → (method_of s ≡ m) ↔ (s ≡ method_string m)
method_of-method_string s m c p = (only_text s m c p, λ e. ap method_of e ∙ read_back m c)

-- The last test of the ladder is misspelt: a request whose method is the text that `methodString`
-- gives for CONNECT is stored as PATH, whatever the request was, and only "CONNET" as CONNECT.
pub method_of_connect :
    (r : HttpRequest) (s : Bytes)
    → ((set_method r (method_string Method.connect)).0.method ≡ Method.path)
      × (((set_method r s).0.method ≡ Method.connect) ↔ (s ≡ codes "CONNET"))
unfolding set_method method_string bytes_eq
method_of_connect r s = (refl, (misspelt, λ e. rw e))
  where
    misspelt : method_of s ≡ Method.connect → s ≡ codes "CONNET"
    misspelt e = ground (arith, bytes_eq_iff s (codes "CONNET"))
