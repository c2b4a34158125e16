-- ===== src/Net/TcpServer/Address.antt =====
-- The addresses of net/TcpServer.cc: the one that the constructor binds, and the name that
-- `newConnection` gives a connection. `inet_pton` and `inet_ntop` are parameters, from the text of an
-- address to its four bytes and back; a port is not negative.
use carf_lib.Shared.{
  ℕ, ◌+◌, ◌*◌, ◌/◌, ◌%◌, ◌^◌, ◌≡◌, refl, ◌∙◌, Option, none, some, [], ◌∷◌, ◌++◌, arith, ◌>>=◌,
  Bytes, codes, length, take, drop, replicate, take-append_le, take_all,
}
use carf_lib.Shared.Decimal.{decimal}

-- A `struct sockaddr_in` in its 16 bytes: family, port, address, and zeros.
abbrev pub sizeof_sockaddr_in : ℕ
sizeof_sockaddr_in = 16

abbrev pub af_inet : Bytes
af_inet = 2 ∷ 0 ∷ []

-- `htons` and `ntohs`: a port with its high byte first.
abbrev pub htons : ℕ → Bytes
htons port = port / 256 ∷ port % 256 ∷ []

abbrev pub ntohs : Bytes → ℕ
ntohs (high ∷ low ∷ _) = 256 * high + low
ntohs _ = 0

abbrev pub sin_port : Bytes → Bytes
sin_port addr = take 2 (drop 2 addr)

abbrev pub sin_addr : Bytes → Bytes
sin_addr addr = take 4 (drop 4 addr)

-- `memset(&addr,0,sizeof addr)`.
abbrev pub zeroed : Bytes
zeroed = replicate sizeof_sockaddr_in 0

-- The address of `port`, `htons(static_cast<uint16_t>(port))`, at the four bytes `ip`.
unfoldable pub address : Bytes → ℕ → Bytes
address ip port = af_inet ++ (htons (port % 2 ^ 16) ++ (ip ++ replicate 8 0))

abbrev pub inaddr_any : Bytes
inaddr_any = replicate 4 0

-- What the constructor binds: `none` where `inet_pton` does not return 1, and the assertion fails.
unfoldable pub bound_address : (Bytes → Option Bytes) → Bytes → ℕ → Option Bytes
bound_address inet_pton [] port = some (address inaddr_any port)
bound_address inet_pton (c ∷ ip) port = inet_pton (c ∷ ip) >>= λ a. some (address a port)

unfoldable pub ip_port_to_string : (Bytes → Bytes) → Bytes → Bytes
ip_port_to_string inet_ntop addr =
    inet_ntop (sin_addr addr) ++ (codes ":" ++ decimal (ntohs (sin_port addr)))

-- The name of a new connection: `accept len` is what `addr`, set to zeros, holds when `accept` was called
-- with the length `len`, which is `socklen_t len=0`.
unfoldable pub peer_name : (Bytes → Bytes) → (ℕ → Bytes) → Bytes
peer_name inet_ntop accept = ip_port_to_string inet_ntop (accept 0)

ntohs-htons : (port : ℕ) → ntohs (htons port) ≡ port
ntohs-htons port = omega arith

sin_addr-address : (ip : Bytes) (port : ℕ) → length ip ≡ 4 → sin_addr (address ip port) ≡ ip
unfolding address
sin_addr-address ip port e =
    take-append_le 4 ip (replicate 8 0) (omega arith) ∙ take_all 4 ip (omega arith)

pub address-named :
    (inet_ntop : Bytes → Bytes) (ip : Bytes) (port : ℕ)
    → length ip ≡ 4
    → ip_port_to_string inet_ntop (address ip port)
      ≡ inet_ntop ip ++ (codes ":" ++ decimal (port % 2 ^ 16))
unfolding ip_port_to_string
address-named inet_ntop ip port e =
    rw (sin_addr-address ip port e) (unfold address in rw (ntohs-htons (port % 2 ^ 16)))

-- The address that the constructor binds, named as `newConnection` names addresses. Where `inet_pton` reads
-- the text to four bytes that `inet_ntop` writes as that text, the assertion holds and the name is
-- the text, a colon and the port's last 16 bits in decimal; without a text it is the address of four
-- zeros; where `inet_pton` fails the assertion does.
pub bound_address-named :
    (inet_pton : Bytes → Option Bytes) (inet_ntop : Bytes → Bytes) (c : ℕ) (ip a : Bytes) (port : ℕ)
    → length a ≡ 4
    → inet_ntop a ≡ c ∷ ip
    → (inet_pton (c ∷ ip) ≡ some a
        → (s : Bytes) × (bound_address inet_pton (c ∷ ip) port ≡ some s)
          × (ip_port_to_string inet_ntop s ≡ c ∷ ip ++ (codes ":" ++ decimal (port % 2 ^ 16))))
      × ((s : Bytes) × (bound_address inet_pton [] port ≡ some s)
          × (ip_port_to_string inet_ntop s
              ≡ inet_ntop inaddr_any ++ (codes ":" ++ decimal (port % 2 ^ 16))))
      × (inet_pton (c ∷ ip) ≡ none → bound_address inet_pton (c ∷ ip) port ≡ none)
unfolding bound_address
bound_address-named inet_pton inet_ntop c ip a port four back = (
  λ e. (address a port, rw e, address-named inet_ntop a port four ∙ rw back),
  (address inaddr_any port, refl, address-named inet_ntop inaddr_any port refl),
  λ e. rw e,
)

-- Where `accept` writes nothing into an address of length 0, a new connection has the name of the zeroed
-- address with port 0, whoever the peer is.
pub peer_name_lost :
    (inet_ntop : Bytes → Bytes) (accept : ℕ → Bytes)
    → accept 0 ≡ zeroed
    → peer_name inet_ntop accept ≡ inet_ntop inaddr_any ++ codes ":0"
unfolding peer_name ip_port_to_string decimal
peer_name_lost inet_ntop accept e = rw e
