-- ===== src/Mdns/Address.antt =====
-- The texts of addresses in gui-app/src/Utils/mDNS/mDns.{hpp,cpp}, as bytes, from a record of a server
-- to the address that is dialed. What `getnameinfo` answers, the numeric host and service or a
-- failure, is an argument; the buffers of the program have 256 bytes.
use sane_in_the_membrane.Common.{
  ℕ, ◌-◌, ◌^◌, ◌≤◌, ◌<◌, ◌≡◌, refl, ap, ◌∙◌, false, List, [], ◌∷◌, ◌++◌, Option, none, some, ◌==◌,
  leb, if◌then◌else◌, length, take, length-take, length-append, All, arith,
}
use sane_in_the_membrane.Common.Decimal.{digits, value_of, value_of-digits, length-digits}

-- `snprintf` into a buffer, and what the length that is returned leaves of it.
abbrev pub clip : ℕ → List ℕ → List ℕ
clip capacity bytes = if leb capacity (length bytes) then take (capacity - 1) bytes else bytes

unfoldable pub ipv4_address_to_string : ℕ → Option (List ℕ × List ℕ) → ℕ → List ℕ
ipv4_address_to_string capacity none sin_port = clip capacity []
ipv4_address_to_string capacity (some (host, service)) sin_port =
    clip capacity (if sin_port == 0 then host else host ++ (b':' ∷ service))

unfoldable pub ipv6_address_to_string : ℕ → Option (List ℕ × List ℕ) → ℕ → List ℕ
ipv6_address_to_string capacity none sin6_port = clip capacity []
ipv6_address_to_string capacity (some (host, service)) sin6_port =
    clip capacity (if sin6_port == 0 then host else b'[' ∷ (host ++ (b']' ∷ b':' ∷ service)))

-- `SQueryResult::as_address_with_port` of an address and a 16-bit port.
unfoldable pub as_address_with_port : List ℕ → ℕ → List ℕ
as_address_with_port address port = address ++ (b':' ∷ digits 5 port)

-- The text that is dialed for the addresses and the port of a server: the record of an address has no
-- port of its own.
unfoldable pub dialed : Option (List ℕ × List ℕ) → ℕ → List ℕ
unfolding as_address_with_port ipv4_address_to_string
dialed info port = as_address_with_port (ipv4_address_to_string 256 info 0) port

-- Reference: what stands before the first colon, and what stands behind it.
abbrev pub split_at_colon : List ℕ → List ℕ × List ℕ
split_at_colon [] = ([], [])
split_at_colon (b ∷ bytes) =
    let rest = split_at_colon bytes in if b == b':' then ([], bytes) else (b ∷ rest.0, rest.1)

abbrev pub IsNoColon : ℕ → Type 0
IsNoColon b = (b == b':') ≡ false

split_at_colon-append :
    (xs ys : List ℕ) → All IsNoColon xs → split_at_colon (xs ++ (b':' ∷ ys)) ≡ (xs, ys)
split_at_colon-append [] ys h = refl
split_at_colon-append (x ∷ xs) ys h = rw (h.0, split_at_colon-append xs ys h.1) refl

length-clip :
    (capacity : ℕ) (bytes : List ℕ) → 1 ≤ capacity → length (clip capacity bytes) < capacity
length-clip capacity bytes h = ground (arith, h, length-take (capacity - 1) bytes)

clip-short : (capacity : ℕ) (bytes : List ℕ) → length bytes < capacity → clip capacity bytes ≡ bytes
clip-short capacity bytes h = ground (arith, h)

length-ipv4_address_to_string :
    (capacity : ℕ) (info : Option (List ℕ × List ℕ)) (sin_port : ℕ)
    → 1 ≤ capacity
    → length (ipv4_address_to_string capacity info sin_port) < capacity
unfolding ipv4_address_to_string
length-ipv4_address_to_string capacity none sin_port h = length-clip capacity [] h
length-ipv4_address_to_string capacity (some (host, service)) sin_port h =
    length-clip capacity (if sin_port == 0 then host else host ++ (b':' ∷ service)) h

-- The host that a server has, and its port, are read back from the text that is dialed, if the host is
-- numeric, without a colon, and shorter than a buffer. If the host is not found, the text has only a
-- colon and the port. For any host the text has at most 261 bytes.
pub dialed-split_at_colon :
    (host service : List ℕ) (port : ℕ)
    → All IsNoColon host
    → length host < 256
    → port < 2 ^ 16
    → (split_at_colon (dialed (some (host, service)) port) ≡ (host, digits 5 port))
      × (split_at_colon (dialed none port) ≡ ([], digits 5 port))
      × (value_of 0 (digits 5 port) ≡ port)
      × ((info : Option (List ℕ × List ℕ)) → length (dialed info port) ≤ 261)
unfolding dialed as_address_with_port ipv4_address_to_string
dialed-split_at_colon host service port h short small = (
  ap (λ bytes. split_at_colon (bytes ++ (b':' ∷ digits 5 port))) (clip-short 256 host short)
      ∙ split_at_colon-append host (digits 5 port) h,
  refl,
  value_of-digits 5 port (omega arith),
  λ info. omega (
    arith,
    length-append (ipv4_address_to_string 256 info 0) (b':' ∷ digits 5 port),
    length-digits 5 port,
    length-ipv4_address_to_string 256 info 0 (omega arith),
  ),
)
