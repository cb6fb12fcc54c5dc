-- ===== src/Addr/Subnets.antt =====
-- Subnets of IPv4: `broadcastAddress`, `networkAddress` and `subnetMask`, and the prefix length that
-- `GetInterfaceAddresses` counts (socket/address.cpp).
use sylar_net_server_framewo.Common.{
  ℕ, zero, suc, ◌+◌, ◌-◌, ◌*◌, ◌/◌, ◌%◌, ◌^◌, ◌≤◌, ◌<◌, ◌≡◌, refl, sym, ap, ◌∙◌, subst, true, false,
  ◌&&◌, some, min, bit_and, bit_or, arith, leb, ltb, replicate,
}
use sylar_net_server_framewo.Common.Checked.{ok, undefined}
use native.Mathlib.Nat.{suc-mul, mul_comm, pow-suc, one-le-pow, pow-le-pow_right, mod-eq_of_lt}
use sylar_net_server_framewo.Common.Bits.{
  bit_and-halves, bit_and-zero, block-lt, ones, bit_and-ones, bit_or-ones, bit_and_comm,
  bit_or_comm,
}
use sylar_net_server_framewo.Common.Ones.{
  ones_in, ones_in-ones, ones_in-blocks, ones_in-drop, ones_in-zero,
}
use sylar_net_server_framewo.Bytes.State.{Endian}
use sylar_net_server_framewo.Addr.Defs.{
  SockaddrIn, create_mask, count_bytes, count_loop, byteswap_on_little_endian, broadcast_address,
  network_address, subnet_mask,
}
use sylar_net_server_framewo.Addr.Host.{
  swap-lt, swap-swap, swap-bit_and, swap-bit_or, swap-complement, ones_in-swap,
}

-- The address as a number, in the machine's byte order.
abbrev pub number : Endian → SockaddrIn → ℕ
number host a = byteswap_on_little_endian host 4 a.s_addr

pow-add : (a b : ℕ) → 2 ^ (a + b) ≡ 2 ^ a * 2 ^ b
pow-add zero b = let z : 0 + b ≡ b = omega arith in rw z (omega arith)
pow-add (suc a) b =
    let e : suc a + b ≡ suc (a + b) = omega arith in
    let d : 2 ^ suc a * 2 ^ b ≡ 2 * (2 ^ a * 2 ^ b) = grind (arith, pow-suc 2 a) in
    rw e (omega (arith, pow-suc 2 (a + b), pow-add a b, d))

ones-lt : (p : ℕ) → ones (32 - p) < 2 ^ 32
ones-lt p =
    let small : 2 ^ (32 - p) ≤ 2 ^ 32 =
      pow-le-pow_right (omega arith) {i = 32 - p} {j = 32} (omega arith) in
    omega (arith, small, one-le-pow (32 - p) 2)

create_mask-ones : (p : ℕ) → 2 ≤ p → p ≤ 32 → create_mask 32 p ≡ ok (ones (32 - p))
unfolding create_mask
create_mask-ones p h h' =
    let t : (leb p 32 && ltb (32 - p) 31) ≡ true = ground arith in
    let m : (2 ^ (32 - p) - 1) % 2 ^ 32 ≡ ones (32 - p) = mod-eq_of_lt (ones-lt p) in rw (t, m) refl

-- For a prefix length from 2 to 32 and an address of 32 bits, the broadcast address has the network
-- part of the address, all ones in the host part, and the same port.
pub broadcast_address-number :
    (host : Endian) (p : ℕ) (a : SockaddrIn)
    → 2 ≤ p
    → p ≤ 32
    → a.s_addr < 2 ^ 32
    → (b : SockaddrIn) × (broadcast_address host p a ≡ ok (some b))
      × (number host b ≡ number host a / 2 ^ (32 - p) * 2 ^ (32 - p) + (2 ^ (32 - p) - 1))
      × (b.sin_port ≡ a.sin_port)
unfolding broadcast_address
broadcast_address-number host p a h h' w =
    let t : ltb 32 p ≡ false = ground arith in
    let mask = byteswap_on_little_endian host 4 (ones (32 - p)) in
    (
      record a { s_addr = bit_or a.s_addr mask },
      rw (t, create_mask-ones p h h') refl,
      swap-bit_or host a.s_addr mask w (swap-lt host (ones (32 - p)) (ones-lt p))
          ∙ ap (bit_or (number host a)) (swap-swap host 4 (ones (32 - p)) (ones-lt p))
          ∙ bit_or_comm (number host a) (ones (32 - p))
          ∙ bit_or-ones (32 - p) (number host a),
      refl,
    )

-- For a prefix length from 2 to 32 and an address of 32 bits, what `networkAddress` gives is the host
-- part of the address, with the same port.
pub network_address-host_part :
    (host : Endian) (p : ℕ) (a : SockaddrIn)
    → 2 ≤ p
    → p ≤ 32
    → a.s_addr < 2 ^ 32
    → (b : SockaddrIn) × (network_address host p a ≡ ok (some b))
      × (number host b ≡ number host a % 2 ^ (32 - p))
      × (b.sin_port ≡ a.sin_port)
unfolding network_address
network_address-host_part host p a h h' w =
    let t : ltb 32 p ≡ false = ground arith in
    let mask = byteswap_on_little_endian host 4 (ones (32 - p)) in
    (
      record a { s_addr = bit_and a.s_addr mask },
      rw (t, create_mask-ones p h h') refl,
      swap-bit_and host a.s_addr mask w (swap-lt host (ones (32 - p)) (ones-lt p))
          ∙ ap (bit_and (number host a)) (swap-swap host 4 (ones (32 - p)) (ones-lt p))
          ∙ bit_and_comm (number host a) (ones (32 - p))
          ∙ bit_and-ones (32 - p) (number host a),
      refl,
    )

-- A loop that has a round for each 1 ends, and counts the ones.
count_loop-ones :
    (k fuel v r : ℕ) → v < 2 ^ k → ones_in k v ≤ fuel → count_loop fuel v r ≡ some (ones_in k v + r)
unfolding count_loop
count_loop-ones k fuel zero r h g = rw (ones_in-zero k) (ap some (omega arith))
count_loop-ones k zero (suc v) r h g =
    let e = ones_in-drop k (suc v) (omega arith) h in absurd (omega arith)
count_loop-ones k (suc fuel) (suc v) r h g =
    let d : suc v - 1 ≡ v = omega arith in
    let e =
      subst (λ t. ones_in k (suc v) ≡ suc (ones_in k (bit_and (suc v) t))) d
        (ones_in-drop k (suc v) (omega arith) h) in
    let small =
      block-lt bit_and min bit_and-halves (bit_and-zero 0) (λ x y l l'. omega arith) k (suc v) v h
        (omega arith) in
    count_loop-ones k fuel (bit_and (suc v) v) (suc r) small (omega arith)
    ∙ ap some (omega (arith, e))

ones_in-le : (k v : ℕ) → ones_in k v ≤ k
unfolding ones_in
ones_in-le zero v = omega arith
ones_in-le (suc k) v = omega (arith, ones_in-le k (v / 2))

-- `CountBytes` ends within as many rounds as the value has bits, and gives the number of its ones.
pub count_bytes-ones : (w value : ℕ) → value < 2 ^ w → count_bytes w value ≡ some (ones_in w value)
unfolding count_bytes
count_bytes-ones w value h =
    count_loop-ones w w value 0 h (ones_in-le w value) ∙ ap some (omega arith)

prefix_ones : (p : ℕ) → p ≤ 32 → ones_in 32 (2 ^ 32 - 1 - ones (32 - p)) ≡ p
prefix_ones p h =
    let w : 32 - p + p ≡ 32 = omega arith in
    let all : 2 ^ (32 - p) * 2 ^ p ≡ 2 ^ 32 = sym (pow-add (32 - p) p) ∙ ap (λ (t : ℕ). 2 ^ t) w in
    let q : 2 ^ p ≡ suc (ones p) = omega (arith, one-le-pow p 2) in
    let m : 2 ^ p * 2 ^ (32 - p) ≡ ones p * 2 ^ (32 - p) + 2 ^ (32 - p) =
      ap (λ (t : ℕ). t * 2 ^ (32 - p)) q ∙ suc-mul (ones p) (2 ^ (32 - p)) in
    let e : 2 ^ 32 - 1 - ones (32 - p) ≡ ones p * 2 ^ (32 - p) + 0 =
      omega (arith, all, mul_comm (2 ^ p) (2 ^ (32 - p)), m, one-le-pow (32 - p) 2) in
    ap (ones_in 32) e
    ∙ ap (λ t. ones_in t (ones p * 2 ^ (32 - p) + 0)) (sym w)
    ∙ ones_in-blocks (32 - p) p (ones p) 0 (one-le-pow (32 - p) 2 (omega arith))
    ∙ omega (arith, ones_in-zero (32 - p), ones_in-ones p)

-- For a prefix length from 2 to 32, the mask has ones in the network part and zeros in the host part;
-- the prefix length that `GetInterfaceAddresses` counts from it is the one it was made for.
pub subnet_mask-prefix :
    (host : Endian) (p : ℕ)
    → 2 ≤ p
    → p ≤ 32
    → (m : SockaddrIn) × (subnet_mask host p ≡ ok m)
      × (number host m ≡ 2 ^ 32 - 2 ^ (32 - p))
      × (count_bytes 32 m.s_addr ≡ some p)
unfolding subnet_mask
subnet_mask-prefix host p h h' =
    let mask = byteswap_on_little_endian host 4 (ones (32 - p)) in
    let small = swap-lt host (ones (32 - p)) (ones-lt p) in
    let n : byteswap_on_little_endian host 4 (2 ^ 32 - 1 - mask) ≡ 2 ^ 32 - 1 - ones (32 - p) =
      swap-complement host mask small
      ∙ ap (λ (t : ℕ). 2 ^ 32 - 1 - t) (swap-swap host 4 (ones (32 - p)) (ones-lt p)) in
    (
      record { sin_port = 0; s_addr = 2 ^ 32 - 1 - mask; sin_zero = replicate 8 0 },
      rw (create_mask-ones p h h') refl,
      n ∙ omega (arith, one-le-pow (32 - p) 2),
      count_bytes-ones 32 (2 ^ 32 - 1 - mask) (omega arith)
          ∙ ap some (
              sym (ones_in-swap host (2 ^ 32 - 1 - mask) (omega arith))
              ∙ ap (ones_in 32) n
              ∙ prefix_ones p h'),
    )

-- At prefix lengths 0 and 1 the mask's shift is undefined, and with it all three.
pub masks-undefined :
    (host : Endian) (p : ℕ) (a : SockaddrIn)
    → p < 2
    → (broadcast_address host p a ≡ undefined)
      × (network_address host p a ≡ undefined)
      × (subnet_mask host p ≡ undefined)
unfolding broadcast_address network_address subnet_mask create_mask
masks-undefined host zero a h = (refl, refl, refl)
masks-undefined host (suc zero) a h = (refl, refl, refl)
masks-undefined host (suc (suc p)) a h = absurd (omega arith)
