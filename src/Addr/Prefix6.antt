-- ===== src/Addr/Prefix6.antt =====
-- Subnets of IPv6: `subnetMask` and the prefix length that is counted from it (socket/address.cpp).
use sylar_net_server_framewo.Common.{
  ℕ, zero, suc, ◌+◌, ◌-◌, ◌*◌, ◌/◌, ◌%◌, ◌^◌, ◌≤◌, ◌<◌, ◌≡◌, refl, ap, ◌∙◌, true, ◌&&◌, none, some,
  List, [], ◌∷◌, bit_or, arith, leb, ltb, length, get_elem?, set, replicate,
}
use sylar_net_server_framewo.Common.Checked.{ok, undefined}
use sylar_net_server_framewo.Common.Ones.{ones_in, ones_in-zero}
use sylar_net_server_framewo.Addr.Defs.{SockaddrIn6, create_mask}
use sylar_net_server_framewo.Addr.Subnets.{count_bytes-ones}
use sylar_net_server_framewo.Addr.V6.{
  subnet_mask6, broadcast_address6, count_octets, fill_below, change_octet, ipv6_any,
}

count_octets-cons :
    (x m : ℕ) (xs : List ℕ)
    → x < 256
    → count_octets xs ≡ some m
    → count_octets (x ∷ xs) ≡ some (ones_in 8 x + m)
unfolding count_octets
count_octets-cons x m xs h e = rw (count_octets, count_bytes-ones 8 x h, e) refl

count_octets-zeros : (n : ℕ) → count_octets (replicate n 0) ≡ some 0
unfolding count_octets
count_octets-zeros zero = refl
count_octets-zeros (suc n) =
    count_octets-cons 0 0 (replicate n 0) (omega arith) (count_octets-zeros n)
    ∙ ap some (omega (arith, ones_in-zero 8))

all_ones : ones_in 8 255 ≡ 8
unfolding ones_in
all_ones = refl

-- `j` octets of ones, one octet `m`, and zeros.
count_octets-mask :
    (j n m : ℕ)
    → j < n
    → m < 256
    → count_octets (fill_below j 255 (set (replicate n 0) j m)) ≡ some (8 * j + ones_in 8 m)
unfolding fill_below
count_octets-mask j zero m h g = absurd (omega arith)
count_octets-mask zero (suc n) m h g =
    count_octets-cons m 0 (replicate n 0) g (count_octets-zeros n) ∙ ap some (omega arith)
count_octets-mask (suc j) (suc n) m h g =
    count_octets-cons 255 (8 * j + ones_in 8 m) (fill_below j 255 (set (replicate n 0) j m))
      (omega arith) (count_octets-mask j n m (omega arith) g)
    ∙ ap some (omega (arith, all_ones))

-- The octet that the prefix ends in
boundary : ℕ → ℕ
boundary r = 255 - (2 ^ (8 - r) - 1) % 2 ^ 8

boundary-ones : (r : ℕ) → r < 8 → ones_in 8 (boundary r) ≡ r
unfolding ones_in boundary
boundary-ones zero h = refl
boundary-ones (suc zero) h = refl
boundary-ones (suc (suc zero)) h = refl
boundary-ones (suc (suc (suc zero))) h = refl
boundary-ones (suc (suc (suc (suc zero)))) h = refl
boundary-ones (suc (suc (suc (suc (suc zero))))) h = refl
boundary-ones (suc (suc (suc (suc (suc (suc zero)))))) h = refl
boundary-ones (suc (suc (suc (suc (suc (suc (suc zero))))))) h = refl
boundary-ones (suc (suc (suc (suc (suc (suc (suc (suc r)))))))) h = absurd (omega arith)

create_mask-octet : (r : ℕ) → r < 8 → create_mask 8 r ≡ ok ((2 ^ (8 - r) - 1) % 2 ^ 8)
unfolding create_mask
create_mask-octet r h = let t : (leb r 8 && ltb (8 - r) 31) ≡ true = ground arith in rw t refl

get_elem?-inside : (xs : List ℕ) (i : ℕ) → i < length xs → (x : ℕ) × (get_elem? xs i ≡ some x)
get_elem?-inside [] i h = absurd (omega arith)
get_elem?-inside (x ∷ xs) zero h = (x, refl)
get_elem?-inside (x ∷ xs) (suc i) h = get_elem?-inside xs i (omega arith)

change_octet-inside :
    (i : ℕ) (f : ℕ → ℕ) (xs : List ℕ)
    → i < length xs
    → (x : ℕ) × (change_octet i f xs ≡ ok (set xs i (f x)))
unfolding change_octet
change_octet-inside i f xs h =
    let (x, e) = get_elem?-inside xs i h in (x, rw (change_octet, e) refl)

get_elem?-behind : (xs : List ℕ) (i : ℕ) → length xs ≤ i → get_elem? xs i ≡ none
get_elem?-behind [] i h = refl
get_elem?-behind (x ∷ xs) zero h = absurd (omega arith)
get_elem?-behind (x ∷ xs) (suc i) h = get_elem?-behind xs i (omega arith)

change_octet-behind :
    (i : ℕ) (f : ℕ → ℕ) (xs : List ℕ) → length xs ≤ i → change_octet i f xs ≡ undefined
unfolding change_octet
change_octet-behind i f xs h = rw (change_octet, get_elem?-behind xs i h) refl

-- Below 128 the prefix length that is counted from the mask is the one it was made for.
pub subnet_mask6-prefix :
    (p : ℕ)
    → p < 128
    → (m : SockaddrIn6) × (subnet_mask6 p ≡ ok m) × (count_octets m.s6_addr ≡ some p)
unfolding subnet_mask6 boundary
subnet_mask6-prefix p h =
    let r = p % 8 in
    let j = p / 8 in
    let mask : ℕ = (2 ^ (8 - r) - 1) % 2 ^ 8 in
    let (x, e) = change_octet-inside j (λ y. 255 - mask) (replicate 16 0) (omega arith) in
    let octets : List ℕ = fill_below j 255 (set (replicate 16 0) j (boundary r)) in
    (
      record ipv6_any { s6_addr = octets },
      rw (create_mask-octet r (omega arith), e) refl,
      count_octets-mask j 16 (boundary r) (omega arith) (omega arith)
          ∙ ap some (omega (arith, boundary-ones r (omega arith))),
    )

-- From prefix length 128 on, `broadcastAddress` and `subnetMask` write behind the 16 octets.
pub masks6-undefined :
    (p : ℕ) (a : SockaddrIn6)
    → 128 ≤ p
    → length a.s6_addr ≡ 16
    → (broadcast_address6 p a ≡ undefined) × (subnet_mask6 p ≡ undefined)
unfolding broadcast_address6 subnet_mask6
masks6-undefined p a h w =
    let mask : ℕ = (2 ^ (8 - p % 8) - 1) % 2 ^ 8 in
    let e = change_octet-behind (p / 8) (λ x. bit_or x mask) a.s6_addr (omega arith) in
    let e' = change_octet-behind (p / 8) (λ x. 255 - mask) (replicate 16 0) (omega arith) in
    (
      rw (create_mask-octet (p % 8) (omega arith), e) refl,
      rw (create_mask-octet (p % 8) (omega arith), e') refl,
    )
