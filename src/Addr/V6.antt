-- ===== src/Addr/V6.antt =====
-- `IPv6Address` (socket/address.cpp).
use sylar_net_server_framewo.Common.{
  ℕ, zero, suc, ◌+◌, ◌-◌, ◌/◌, ◌%◌, Bool, true, false, not, ◌&&◌, ◌||◌, Option, none, some, List,
  [], ◌∷◌, ◌++◌, bit_and, bit_or, ltb, ◌==◌, if◌then◌else◌, get_elem?, set, replicate,
}
use sylar_net_server_framewo.Common.Checked.{Checked, ok, undefined, ◌>>=◌}
use sylar_net_server_framewo.Bytes.State.{Endian}
use sylar_net_server_framewo.Addr.Defs.{
  SockaddrIn6, byteswap_on_little_endian, create_mask, count_bytes,
}

-- `IPv6Address::IPv6Address()` and `IPv6Address(const uint8_t[16], uint16_t)`
abbrev pub ipv6_any : SockaddrIn6
ipv6_any = record { sin6_port = 0; sin6_flowinfo = 0; s6_addr = replicate 16 0; sin6_scope_id = 0 }

unfoldable pub ipv6 : Endian → List ℕ → ℕ → SockaddrIn6
ipv6 host address port = record ipv6_any {
  sin6_port = byteswap_on_little_endian host 2 port;
  s6_addr = address;
}

-- `IPv6Address::Create`: `inet_pton` gives the octets, or fails.
unfoldable pub ipv6_create : Endian → (List ℕ → Option (List ℕ)) → List ℕ → ℕ → Option SockaddrIn6
ipv6_create host inet_pton address port = elim (inet_pton address) [
  | none ↦ none
  | some parsed ↦ some (ipv6 host parsed port)
]

-- `for(int i = start; i < 16; ++i)` and `for(uint32_t i = 0; i < end; ++i)`, with `s6_addr[i] = v`
unfoldable pub fill_from : ℕ → ℕ → List ℕ → List ℕ
fill_from start v [] = []
fill_from zero v (x ∷ xs) = v ∷ fill_from zero v xs
fill_from (suc start) v (x ∷ xs) = x ∷ fill_from start v xs

unfoldable pub fill_below : ℕ → ℕ → List ℕ → List ℕ
fill_below zero v xs = xs
fill_below (suc end) v [] = []
fill_below (suc end) v (x ∷ xs) = v ∷ fill_below end v xs

-- The octet of `s6_addr` that the prefix ends in, changed: an index behind the array is undefined.
unfoldable pub change_octet : ℕ → (ℕ → ℕ) → List ℕ → Checked (List ℕ)
change_octet i f octets = elim (get_elem? octets i) [
  | none ↦ undefined
  | some x ↦ ok (set octets i (f x))
]

-- `IPv6Address::broadcastAddress`, `networkAddress` and `subnetMask`
unfoldable pub broadcast_address6 : ℕ → SockaddrIn6 → Checked (Option SockaddrIn6)
broadcast_address6 prefix_len a = create_mask 8 (prefix_len % 8) >>= λ mask.
    change_octet (prefix_len / 8) (λ x. bit_or x mask) a.s6_addr >>= λ octets.
    ok (some (record a { s6_addr = fill_from (prefix_len / 8 + 1) 255 octets }))

unfoldable pub network_address6 : ℕ → SockaddrIn6 → Checked (Option SockaddrIn6)
network_address6 prefix_len a =
    if ltb 32 prefix_len
    then ok none
    else create_mask 8 (prefix_len % 8) >>= λ mask.
        change_octet (prefix_len / 8) (λ x. bit_and x mask) a.s6_addr >>= λ octets.
        ok (some (record a { s6_addr = fill_from (prefix_len / 8 + 1) 0 octets }))

unfoldable pub subnet_mask6 : ℕ → Checked SockaddrIn6
subnet_mask6 prefix_len = create_mask 8 (prefix_len % 8) >>= λ mask.
    change_octet (prefix_len / 8) (λ x. 255 - mask) ipv6_any.s6_addr >>= λ octets.
    ok (record ipv6_any { s6_addr = fill_below (prefix_len / 8) 255 octets })

-- `prefix_len += CountBytes(netmask.s6_addr[i])`
unfoldable pub count_octets : List ℕ → Option ℕ
count_octets [] = some 0
count_octets (x ∷ xs) = elim (count_bytes 8 x) [
  | none ↦ none
  | some n ↦ elim (count_octets xs) [ none ↦ none | some m ↦ some (n + m) ]
]

-- What `print` writes between the brackets: colons and groups.
pub data Token : Type 0 where
  colon : Token
  group : ℕ → Token

-- `addr[i - 1] == 0`, with none for `i == 0`
abbrev pub was_zero : Option ℕ → Bool
was_zero none = false
was_zero (some g) = g == 0

abbrev pub not_first : Option ℕ → Bool
not_first none = false
not_first (some g) = true

-- The loop of `IPv6Address::print` over the 16-bit words `addr[i]`, and `used_zeros` after it. `swap`
-- is `byteswapOnLittleEndian`.
unfoldable pub print_groups : (ℕ → ℕ) → Bool → Option ℕ → List ℕ → List Token × Bool
print_groups swap used_zeros previous [] = ([], used_zeros)
print_groups swap used_zeros previous (g ∷ gs) =
    let skipped = print_groups swap used_zeros (some g) gs in
    let zeros = was_zero previous && not used_zeros in
    let rest = print_groups swap (used_zeros || zeros) (some g) gs in
    if (g == 0) && not used_zeros then skipped else (
      (if zeros then colon ∷ [] else [])
          ++ ((if not_first previous then colon ∷ [] else []) ++ group (swap g) ∷ rest.0),
      rest.1,
    )

-- `addr[7] == 0`
abbrev pub last_is_zero : Option ℕ → List ℕ → Bool
last_is_zero previous [] = was_zero previous
last_is_zero previous (g ∷ gs) = last_is_zero (some g) gs

unfoldable pub print_address6 : (ℕ → ℕ) → List ℕ → List Token
print_address6 swap addr =
    let r = print_groups swap false none addr in
    r.0 ++ (if not r.1 && last_is_zero none addr then colon ∷ colon ∷ [] else [])
