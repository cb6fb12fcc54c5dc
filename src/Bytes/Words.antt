-- ===== src/Bytes/Words.antt =====
-- Fixed-width integers: `writeFint8` to `writeFuint64`, `readFint8` to `readFuint64`, `writeFloat`,
-- `writeDouble` (socket/bytearray.cpp) and `byteswap` (socket/endian.h).
use sylar_net_server_framewo.Common.{
  subst, ℕ, zero, suc, ◌+◌, ◌*◌, ◌/◌, ◌%◌, ◌^◌, ◌<◌, ◌≡◌, refl, ap, ◌∙◌, List, [], ◌∷◌, arith, Bool,
  true, false, if◌then◌else◌, length, All, All-append, length-append,
}
use mathlib.Core.List.{reverse, reverse-cons, reverse-reverse}
use sylar_net_server_framewo.Bytes.Chain.{Outcome, done, ◌>>=◌}
use sylar_net_server_framewo.Bytes.State.{
  ByteArray, Endian, little, big, write, read, set_position, IsValid,
}
use sylar_net_server_framewo.Bytes.Capacity.{CanGrow}
use sylar_net_server_framewo.Bytes.RoundTrip.{write-Trip}

-- The bytes of a value of `k` bytes, lowest first, and the value of such bytes.
unfoldable pub le_bytes : ℕ → ℕ → List ℕ
le_bytes zero v = []
le_bytes (suc k) v = (v % 256) ∷ le_bytes k (v / 256)

unfoldable pub le_value : List ℕ → ℕ
le_value [] = 0
le_value (b ∷ bs) = b + 256 * le_value bs

abbrev pub same_endian : Endian → Endian → Bool
same_endian little little = true
same_endian big big = true
same_endian little big = false
same_endian big little = false

-- How the machine stores a value: `SYLAR_BYTE_ORDER` is `host`.
abbrev pub to_memory : Endian → ℕ → ℕ → List ℕ
to_memory host k v = if same_endian host little then le_bytes k v else reverse (le_bytes k v)

abbrev pub from_memory : Endian → List ℕ → ℕ
from_memory host bs = if same_endian host little then le_value bs else le_value (reverse bs)

-- `byteswap` of a value of `k` bytes, by `bswap_16`, `bswap_32` and `bswap_64`.
unfoldable pub byteswap : ℕ → ℕ → ℕ
unfolding le_bytes le_value
byteswap k v = le_value (reverse (le_bytes k v))

-- The integer writers: the signed and the unsigned ones store the same bit pattern `v`, and so do
-- `writeFloat` and `writeDouble`.
unfoldable pub write_fixed : Endian → ℕ → ℕ → ByteArray → Outcome ByteArray
unfolding byteswap
write_fixed host k v b =
    write (to_memory host k (if same_endian b.endian host then v else byteswap k v)) b

-- The integer readers.
unfoldable pub read_fixed : Endian → ℕ → ByteArray → Outcome (ℕ × ByteArray)
unfolding byteswap
read_fixed host k b = read k b >>= λ r.
    let v = from_memory host r.0 in
    done (if same_endian b.endian host then v else byteswap k v, r.1)

pub length-le_bytes : (k v : ℕ) → length (le_bytes k v) ≡ k
unfolding le_bytes
length-le_bytes zero v = refl
length-le_bytes (suc k) v = ap suc (length-le_bytes k (v / 256))

pub IsByte-le_bytes : (k v : ℕ) → All (λ x. x < 256) (le_bytes k v)
unfolding le_bytes
IsByte-le_bytes zero v = tt
IsByte-le_bytes (suc k) v = (omega arith, IsByte-le_bytes k (v / 256))

pub le_value-le_bytes : (k v : ℕ) → v < 256 ^ k → le_value (le_bytes k v) ≡ v
unfolding le_bytes le_value
le_value-le_bytes zero v h = omega arith
le_value-le_bytes (suc k) v h = omega (arith, le_value-le_bytes k (v / 256) (omega arith))

pub le_bytes-le_value :
    (bs : List ℕ) (k : ℕ) → length bs ≡ k → All (λ x. x < 256) bs → le_bytes k (le_value bs) ≡ bs
unfolding le_bytes le_value
le_bytes-le_value [] zero e h = refl
le_bytes-le_value [] (suc k) e h = absurd (omega arith)
le_bytes-le_value (b ∷ bs) zero e h = absurd (omega arith)
le_bytes-le_value (b ∷ bs) (suc k) e h = ground (arith, le_bytes-le_value bs k (omega arith) h.1)

pub le_value-lt :
    (bs : List ℕ) (k : ℕ) → length bs ≡ k → All (λ x. x < 256) bs → le_value bs < 256 ^ k
unfolding le_value
le_value-lt [] zero e h = omega arith
le_value-lt [] (suc k) e h = absurd (omega arith)
le_value-lt (b ∷ bs) zero e h = absurd (omega arith)
le_value-lt (b ∷ bs) (suc k) e h = omega (arith, h.0, le_value-lt bs k (omega arith) h.1)

pub All-reverse : (xs : List ℕ) → All (λ x. x < 256) xs → All (λ x. x < 256) (reverse xs)
All-reverse [] h = tt
All-reverse (x ∷ xs) h =
    rw (reverse-cons x xs) (All-append _ (reverse xs) (x ∷ []) (All-reverse xs h.1) (h.0, tt))

pub length-reverse : (xs : List ℕ) → length (reverse xs) ≡ length xs
length-reverse [] = refl
length-reverse (x ∷ xs) =
    omega
      (arith, ap length (reverse-cons x xs), length-append (reverse xs) (x ∷ []), length-reverse xs)

pub le_bytes-byteswap : (k v : ℕ) → le_bytes k (byteswap k v) ≡ reverse (le_bytes k v)
unfolding byteswap
le_bytes-byteswap k v =
    le_bytes-le_value (reverse (le_bytes k v)) k
      (length-reverse (le_bytes k v) ∙ length-le_bytes k v)
      (All-reverse (le_bytes k v) (IsByte-le_bytes k v))

-- Swapping the bytes of a value of `k` bytes twice gives it back.
pub byteswap-byteswap : (k v : ℕ) → v < 256 ^ k → byteswap k (byteswap k v) ≡ v
byteswap-byteswap k v h =
    unfold byteswap in
    ap le_value (ap reverse (le_bytes-byteswap k v) ∙ reverse-reverse _) ∙ le_value-le_bytes k v h

-- The byte order of the buffer, whatever the machine's.
abbrev pub wire : Endian → ℕ → ℕ → List ℕ
wire little k v = le_bytes k v
wire big k v = reverse (le_bytes k v)

write_fixed-wire_lem :
    (host e : Endian) (k v : ℕ)
    → to_memory host k (if same_endian e host then v else byteswap k v) ≡ wire e k v
write_fixed-wire_lem little little k v = refl
write_fixed-wire_lem little big k v = le_bytes-byteswap k v
write_fixed-wire_lem big little k v = ap reverse (le_bytes-byteswap k v) ∙ reverse-reverse _
write_fixed-wire_lem big big k v = refl

-- An integer of `k` bytes is written in the buffer's byte order, on a machine of either order.
pub write_fixed-wire :
    (host : Endian) (k v : ℕ) (b : ByteArray) → write_fixed host k v b ≡ write (wire b.endian k v) b
unfolding write_fixed
write_fixed-wire host k v b = ap (λ t. write t b) (write_fixed-wire_lem host b.endian k v)

from_memory-wire :
    (host e : Endian) (k v : ℕ)
    → v < 256 ^ k
    → (if same_endian e host
        then from_memory host (wire e k v)
        else byteswap k (from_memory host (wire e k v)))
      ≡ v
from_memory-wire little little k v h = le_value-le_bytes k v h
from_memory-wire little big k v h = unfold byteswap in byteswap-byteswap k v h
from_memory-wire big little k v h = unfold byteswap in byteswap-byteswap k v h
from_memory-wire big big k v h = ap le_value (reverse-reverse _) ∙ le_value-le_bytes k v h

pub length-wire : (e : Endian) (k v : ℕ) → length (wire e k v) ≡ k
length-wire little k v = length-le_bytes k v
length-wire big k v = length-reverse (le_bytes k v) ∙ length-le_bytes k v

pub read_fixed-wire :
    (host e : Endian) (k v : ℕ) (b b' : ByteArray)
    → v < 256 ^ k
    → b.endian ≡ e
    → read k b ≡ done (wire e k v, b')
    → read_fixed host k b ≡ done (v, b')
unfolding read_fixed
read_fixed-wire host e k v b b' h he hr =
    rw (hr, he) (ap (λ t. done (t, b')) (from_memory-wire host e k v h))

-- On a well-formed array that is written at its end, or that is not full, an integer of 1 byte or
-- more is read back from where it was written, whatever the byte order of the machine and of the
-- buffer.
pub read_fixed-write_fixed :
    (host : Endian) (k v : ℕ) (b : ByteArray)
    → IsValid b
    → CanGrow b
    → 0 < k
    → v < 256 ^ k
    → (b' : ByteArray) × ((write_fixed host k v b >>= λ c.
          set_position b.position c >>= read_fixed host k)
        ≡ done (v, b'))
      × IsValid b'
      × (b'.position ≡ b.position + k)
read_fixed-write_fixed host k v b vb g hk hv =
    let buf = wire b.endian k v in
    let len : length buf ≡ k = length-wire b.endian k v in
    let (b₁, b₂, b₃, e, w, t) = write-Trip buf b vb g (omega arith) in
    (
      b₃,
      rw (write_fixed-wire host k v b, e, t.moved)
          (read_fixed-wire host b.endian k v b₂ b₃ hv (t.mid_endian ∙ w.same_endian)
            (subst (λ n. read n b₂ ≡ done (buf, b₃)) len t.got)),
      t.valid,
      omega (arith, t.new_position),
    )
