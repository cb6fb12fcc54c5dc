-- ===== src/Addr/Runs.antt =====
-- Runs of the addresses.
use sylar_net_server_framewo.Common.{
  ℕ, ◌+◌, ◌-◌, ◌*◌, ◌/◌, ◌^◌, ◌≡◌, some, List, [], ◌∷◌, map, arith, replicate,
}
use sylar_net_server_framewo.Common.Checked.{ok}
use sylar_net_server_framewo.Bytes.State.{little}
use sylar_net_server_framewo.Bytes.Words.{le_bytes}
use sylar_net_server_framewo.Addr.Defs.{
  get_family, SockaddrIn, SockaddrIn6, ipv4_address, broadcast_address, subnet_mask, count_bytes,
  get_port, byteswap_on_little_endian,
}
use sylar_net_server_framewo.Addr.V6.{Token, print_address6}
use sylar_net_server_framewo.Addr.Text.{print4, print6, token_text, words}
use sylar_net_server_framewo.Addr.Lookup.{split_host}
use sylar_net_server_framewo.Addr.Unix.{get_addr, get_addr_len}
use sylar_net_server_framewo.Addr.Order.{less, equal, Fits}
use sylar_net_server_framewo.Addr.Sorted.{Trichotomy, less-Trichotomy}
use sylar_net_server_framewo.Addr.Subnets.{number, broadcast_address-number, subnet_mask-prefix}
use sylar_net_server_framewo.Addr.Groups.{Denotes, print_address6-Denotes}
use sylar_net_server_framewo.Addr.Printed.{swap-zero, split_host-print4, split_host-print6}
use sylar_net_server_framewo.Addr.Digits.{read_dotted, read_digits}

-- 192.168.1.2:8080 on a little-endian machine
abbrev home : SockaddrIn
home = record { sin_port = 36895; s_addr = 33663168; sin_zero = replicate 8 0 }

-- [fe80::1]:8080
abbrev link : SockaddrIn6
link = record {
  sin6_port = 36895;
  sin6_flowinfo = 0;
  s6_addr = 254 ∷ 128 ∷ 0 ∷ 0 ∷ 0 ∷ 0 ∷ 0 ∷ 0 ∷ 0 ∷ 0 ∷ 0 ∷ 0 ∷ 0 ∷ 0 ∷ 0 ∷ 1 ∷ [];
  sin6_scope_id = 0;
}

broadcast_example :
    (b : SockaddrIn) × (broadcast_address little 24 home ≡ ok (some b))
    × (number little b ≡ number little home / 2 ^ (32 - 24) * 2 ^ (32 - 24) + (2 ^ (32 - 24) - 1))
    × (b.sin_port ≡ home.sin_port)
broadcast_example =
    broadcast_address-number little 24 home (omega arith) (omega arith) (omega arith)

mask_example :
    (m : SockaddrIn) × (subnet_mask little 24 ≡ ok m)
    × (number little m ≡ 2 ^ 32 - 2 ^ (32 - 24))
    × (count_bytes 32 m.s_addr ≡ some 24)
mask_example = subnet_mask-prefix little 24 (omega arith) (omega arith)

groups_example :
    Denotes
      (print_address6
        (byteswap_on_little_endian little 2)
        (33022 ∷ 0 ∷ 0 ∷ 0 ∷ 0 ∷ 0 ∷ 0 ∷ 256 ∷ []))
      (map (byteswap_on_little_endian little 2) (33022 ∷ 0 ∷ 0 ∷ 0 ∷ 0 ∷ 0 ∷ 0 ∷ 256 ∷ []))
groups_example =
    print_address6-Denotes (byteswap_on_little_endian little 2) (swap-zero little) 33022
      (0 ∷ 0 ∷ 0 ∷ 0 ∷ 0 ∷ 0 ∷ 256 ∷ [])

print4_example :
    (node : List ℕ) × (service : List ℕ) × (split_host (print4 little home) ≡ (node, some service))
    × (read_dotted node ≡ some (number little home))
    × (read_digits 10 0 service ≡ get_port little home)
print4_example = split_host-print4 little home (omega arith) (omega arith)

print6_example :
    (tokens : List Token) × (service : List ℕ) × (split_host (print6 little link)
      ≡ (token_text tokens, some service))
    × Denotes tokens (map (byteswap_on_little_endian little 2) (words little link.s6_addr))
    × (read_digits 10 0 service ≡ byteswap_on_little_endian little 2 link.sin6_port)
print6_example = split_host-print6 little link (omega arith) (omega arith)

-- The path "/s"
abbrev slash_s : List ℕ
slash_s = 47 ∷ 115 ∷ []

home-Fits : Fits little (ipv4_address home)
unfolding get_addr get_addr_len get_family le_bytes
home-Fits = omega arith

order_example :
    Trichotomy
      (less little (ipv4_address home) (ipv4_address home))
      (equal little (ipv4_address home) (ipv4_address home))
      (less little (ipv4_address home) (ipv4_address home))
order_example = less-Trichotomy little (ipv4_address home) (ipv4_address home) home-Fits home-Fits
