-- ===== src/Tests/Addresses.antt =====
-- Addresses and their names.
use carf_lib.Shared.{
  ℕ, ◌%◌, ◌^◌, ◌≡◌, refl, Option, none, some, [], ◌∷◌, ◌++◌, if◌then◌else◌, ◌>>=◌, Bytes, codes,
  bytes_eq, take, drop,
}
use carf_lib.Shared.Decimal.{decimal}
use carf_lib.Net.TcpServer.Address.{
  bound_address, ip_port_to_string, inaddr_any, zeroed, bound_address-named, peer_name, address,
}

-- `inet_ntop` and, for one address, `inet_pton`.
abbrev dotted : Bytes → Bytes
dotted (a ∷ b ∷ c ∷ d ∷ _) =
    decimal a
    ++ (codes "." ++ (decimal b ++ (codes "." ++ (decimal c ++ (codes "." ++ decimal d)))))
dotted _ = []

abbrev from_text : Bytes → Option Bytes
from_text s = if bytes_eq s (codes "127.0.0.1") then some (127 ∷ 0 ∷ 0 ∷ 1 ∷ []) else none

abbrev local : Bytes
local = codes "27.0.0.1"

bound_address-named_example :
    (from_text (b'1' ∷ local) ≡ some (127 ∷ 0 ∷ 0 ∷ 1 ∷ [])
      → (s : Bytes) × (bound_address from_text (b'1' ∷ local) 8000 ≡ some s)
        × (ip_port_to_string dotted s ≡ b'1' ∷ local ++ (codes ":" ++ decimal (8000 % 2 ^ 16))))
    × ((s : Bytes) × (bound_address from_text [] 8000 ≡ some s)
        × (ip_port_to_string dotted s
            ≡ dotted inaddr_any ++ (codes ":" ++ decimal (8000 % 2 ^ 16))))
    × (from_text (b'1' ∷ local) ≡ none → bound_address from_text (b'1' ∷ local) 8000 ≡ none)
bound_address-named_example =
    bound_address-named from_text dotted b'1' local (127 ∷ 0 ∷ 0 ∷ 1 ∷ []) 8000 refl
      (unfold decimal in refl)

bound_here :
    (bound_address from_text (codes "127.0.0.1") 8000 >>= λ s. some (ip_port_to_string dotted s))
    ≡ some (codes "127.0.0.1:8000")
unfolding bound_address address ip_port_to_string decimal bytes_eq
bound_here = refl

-- A peer at 10.0.0.7, whose address `accept` writes as far as the length goes.
abbrev accept : ℕ → Bytes
accept len = take len (address (10 ∷ 0 ∷ 0 ∷ 7 ∷ []) 5000) ++ drop len zeroed

unnamed : peer_name dotted accept ≡ codes "0.0.0.0:0"
unfolding peer_name ip_port_to_string decimal address
unnamed = refl
