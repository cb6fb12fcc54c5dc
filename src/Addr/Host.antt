-- ===== src/Addr/Host.antt =====
-- `byteswapOnLittleEndian` of 32 bits (socket/endian.h) together with `&`, `|`, `~` and the ones.
use sylar_net_server_framewo.Common.{
  ℕ, ◌-◌, ◌^◌, ◌<◌, ◌≡◌, refl, ◌∙◌, min, max, bit_and, bit_or, arith,
}
use sylar_net_server_framewo.Common.Bits.{
  bit_and-halves, bit_or-halves, bit_and-zero, bit_or-zero, blocks, block-lt,
}
use sylar_net_server_framewo.Common.Ones.{ones_in}
use sylar_net_server_framewo.Bytes.State.{Endian, little, big}
use sylar_net_server_framewo.Bytes.Words.{
  le_bytes, byteswap, byteswap-byteswap, le_value-lt, length-reverse, length-le_bytes, All-reverse,
  IsByte-le_bytes,
}
use sylar_net_server_framewo.Addr.Defs.{byteswap_on_little_endian}
use sylar_net_server_framewo.Addr.Octets.{byteswap-op, byteswap-complement, ones_in-byteswap}
use mathlib.Core.List.{reverse}

pub swap-lt : (host : Endian) (v : ℕ) → v < 2 ^ 32 → byteswap_on_little_endian host 4 v < 2 ^ 32
unfolding byteswap_on_little_endian byteswap
swap-lt big v h = h
swap-lt little v h =
    le_value-lt (reverse (le_bytes 4 v)) 4 (length-reverse (le_bytes 4 v) ∙ length-le_bytes 4 v)
      (All-reverse (le_bytes 4 v) (IsByte-le_bytes 4 v))

pub swap-swap :
    (host : Endian) (k v : ℕ)
    → v < 256 ^ k
    → byteswap_on_little_endian host k (byteswap_on_little_endian host k v) ≡ v
unfolding byteswap_on_little_endian
swap-swap big k v h = refl
swap-swap little k v h = byteswap-byteswap k v h

pub swap-bit_and :
    (host : Endian) (a b : ℕ)
    → a < 2 ^ 32
    → b < 2 ^ 32
    → byteswap_on_little_endian host 4 (bit_and a b)
      ≡ bit_and (byteswap_on_little_endian host 4 a) (byteswap_on_little_endian host 4 b)
unfolding byteswap_on_little_endian
swap-bit_and big a b h h' = refl
swap-bit_and little a b h h' =
    byteswap-op bit_and
      (λ q r q' r' g g'.
        blocks bit_and min bit_and-halves (bit_and-zero 0) (λ x y l l'. omega arith) 8 q r q' r' g
          g')
      (λ x y g g'.
        block-lt bit_and min bit_and-halves (bit_and-zero 0) (λ x y l l'. omega arith) 8 x y g g')
      4 a b
      (block-lt bit_and min bit_and-halves (bit_and-zero 0) (λ x y l l'. omega arith) 32
        (byteswap 4 a) (byteswap 4 b) (swap-lt little a h) (swap-lt little b h'))

pub swap-bit_or :
    (host : Endian) (a b : ℕ)
    → a < 2 ^ 32
    → b < 2 ^ 32
    → byteswap_on_little_endian host 4 (bit_or a b)
      ≡ bit_or (byteswap_on_little_endian host 4 a) (byteswap_on_little_endian host 4 b)
unfolding byteswap_on_little_endian
swap-bit_or big a b h h' = refl
swap-bit_or little a b h h' =
    byteswap-op bit_or
      (λ q r q' r' g g'.
        blocks bit_or max bit_or-halves (bit_or-zero 0) (λ x y l l'. omega arith) 8 q r q' r' g g')
      (λ x y g g'.
        block-lt bit_or max bit_or-halves (bit_or-zero 0) (λ x y l l'. omega arith) 8 x y g g')
      4 a b
      (block-lt bit_or max bit_or-halves (bit_or-zero 0) (λ x y l l'. omega arith) 32 (byteswap 4 a)
        (byteswap 4 b) (swap-lt little a h) (swap-lt little b h'))

pub swap-complement :
    (host : Endian) (v : ℕ)
    → v < 2 ^ 32
    → byteswap_on_little_endian host 4 (2 ^ 32 - 1 - v)
      ≡ 2 ^ 32 - 1 - byteswap_on_little_endian host 4 v
unfolding byteswap_on_little_endian
swap-complement big v h = refl
swap-complement little v h = byteswap-complement 4 v h

pub ones_in-swap :
    (host : Endian) (v : ℕ)
    → v < 2 ^ 32
    → ones_in 32 (byteswap_on_little_endian host 4 v) ≡ ones_in 32 v
unfolding byteswap_on_little_endian
ones_in-swap big v h = refl
ones_in-swap little v h = ones_in-byteswap 4 v h
