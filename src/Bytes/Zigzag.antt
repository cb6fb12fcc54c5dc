-- ===== src/Bytes/Zigzag.antt =====
-- Zigzag codes, and the signed and the wide variable-length integers (socket/bytearray.cpp).
use sylar_net_server_framewo.Common.{
  ◌↔◌, ℕ, suc, ◌+◌, ◌-◌, ◌*◌, ◌/◌, ◌%◌, ◌^◌, ◌<◌, ◌≡◌, refl, ap, ◌∙◌, List, ◌++◌, arith, ltb, ◌==◌,
  if◌then◌else◌, drop, length,
}
use sylar_net_server_framewo.Common.Int.{ℤ, pos, negsuc}
use sylar_net_server_framewo.Bytes.Chain.{Outcome, done, ◌>>=◌}
use sylar_net_server_framewo.Bytes.State.{ByteArray, contents, IsValid}
use sylar_net_server_framewo.Bytes.Varint.{
  read_word32, read_word64, write_uint32, leb128, After, read_word32-leb128, read_word64-leb128,
}

-- The bit pattern of `w` bits as a signed integer, and a signed integer as its bit pattern.
abbrev pub to_signed : ℕ → ℕ → ℤ
to_signed w v = if ltb v (2 ^ (w - 1)) then pos v else negsuc (2 ^ w - 1 - v)

abbrev pub to_pattern : ℕ → ℤ → ℕ
to_pattern w (pos n) = n % 2 ^ w
to_pattern w (negsuc n) = 2 ^ w - 1 - n % 2 ^ w

-- `int32_t` and `int64_t`
abbrev pub IsSigned : ℕ → ℤ → Type 0
IsSigned w (pos n) = n < 2 ^ (w - 1)
IsSigned w (negsuc n) = n < 2 ^ (w - 1)

-- `((uint32_t)(-v)) * 2 - 1` and `v * 2`, in words of `w` bits.
unfoldable pub encode_zigzag : ℕ → ℤ → ℕ
encode_zigzag w (pos n) = n * 2 % 2 ^ w
encode_zigzag w (negsuc n) = (suc n % 2 ^ w * 2 + 2 ^ w - 1) % 2 ^ w

-- `(v >> 1) ^ -(v & 1)`: `-(v & 1)` is all zeros or all ones, and `^` with all ones is the
-- complement.
unfoldable pub decode_zigzag : ℕ → ℕ → ℤ
decode_zigzag w v = to_signed w (if v % 2 == 0 then v / 2 else 2 ^ w - 1 - v / 2)

-- `writeInt32`, and `writeInt64`, which hands its 64-bit code to `writeUint32`.
unfoldable pub write_int32 : ℤ → ByteArray → Outcome ByteArray
unfolding encode_zigzag
write_int32 v b = write_uint32 (encode_zigzag 32 v) b

unfoldable pub write_int64 : ℤ → ByteArray → Outcome ByteArray
unfolding encode_zigzag
write_int64 v b = write_uint32 (encode_zigzag 64 v % 2 ^ 32) b

-- `readUint32`, `readInt32`, `readUint64` and `readInt64`: all four return an `int32_t`.
unfoldable pub read_uint32 : ByteArray → Outcome (ℤ × ByteArray)
read_uint32 b = read_word32 b >>= λ r. done (to_signed 32 r.0, r.1)

unfoldable pub read_int32 : ByteArray → Outcome (ℤ × ByteArray)
read_int32 b = read_uint32 b >>= λ r. done (decode_zigzag 32 (to_pattern 32 r.0), r.1)

unfoldable pub read_uint64 : ByteArray → Outcome (ℤ × ByteArray)
read_uint64 b = read_word64 b >>= λ r. done (to_signed 32 (r.0 % 2 ^ 32), r.1)

unfoldable pub read_int64 : ByteArray → Outcome (ℤ × ByteArray)
read_int64 b = read_uint64 b >>= λ r.
    done (to_signed 32 (to_pattern 32 (decode_zigzag 64 (to_pattern 64 r.0))), r.1)

-- Decoding undoes encoding on every 32-bit integer.
pub decode_zigzag-encode_zigzag32 :
    (v : ℤ) → IsSigned 32 v → decode_zigzag 32 (encode_zigzag 32 v) ≡ v
unfolding decode_zigzag encode_zigzag
decode_zigzag-encode_zigzag32 (pos n) h = ground arith
decode_zigzag-encode_zigzag32 (negsuc n) h = ground arith

-- Decoding undoes encoding on every 64-bit integer.
pub decode_zigzag-encode_zigzag64 :
    (v : ℤ) → IsSigned 64 v → decode_zigzag 64 (encode_zigzag 64 v) ≡ v
unfolding decode_zigzag encode_zigzag
decode_zigzag-encode_zigzag64 (pos n) h = ground arith
decode_zigzag-encode_zigzag64 (negsuc n) h = ground arith

encode_zigzag-lt32 : (v : ℤ) → encode_zigzag 32 v < 2 ^ 32
unfolding encode_zigzag
encode_zigzag-lt32 (pos n) = omega arith
encode_zigzag-lt32 (negsuc n) = omega arith

to_pattern-to_signed32 : (v : ℕ) → v < 2 ^ 32 → to_pattern 32 (to_signed 32 v) ≡ v
to_pattern-to_signed32 v h = ground arith

-- `readInt32` reads every 32-bit integer whose zigzag code stands in the buffer in the format of
-- seven bits a byte.
pub read_int32-leb128 :
    (v : ℤ) (b : ByteArray) (rest : List ℕ)
    → IsSigned 32 v
    → IsValid b
    → drop b.position (contents b) ≡ leb128 4 (encode_zigzag 32 v) ++ rest
    → (b' : ByteArray) × (read_int32 b ≡ done (v, b'))
      × After b (length (leb128 4 (encode_zigzag 32 v))) rest b'
unfolding read_int32 read_uint32
read_int32-leb128 v b rest h vb e =
    let c = encode_zigzag 32 v in
    let (b', f, a) = read_word32-leb128 c b rest (encode_zigzag-lt32 v) vb e in
    (
      b',
      rw f (
          ap (λ t. done (t, b'))
            (ap (decode_zigzag 32) (to_pattern-to_signed32 c (encode_zigzag-lt32 v))
              ∙ decode_zigzag-encode_zigzag32 v h)),
      a,
    )

-- `readUint64` loses all but the low 32 bits of what stands in the buffer, and reads bit 31 as a
-- sign.
pub read_uint64-narrows :
    (value : ℕ) (b : ByteArray) (rest : List ℕ)
    → value < 2 ^ 64
    → IsValid b
    → drop b.position (contents b) ≡ leb128 9 value ++ rest
    → (b' : ByteArray) × (read_uint64 b ≡ done (to_signed 32 (value % 2 ^ 32), b'))
      × ((to_signed 32 (value % 2 ^ 32) ≡ pos value) ↔ (value < 2 ^ 31))
unfolding read_uint64
read_uint64-narrows value b rest h vb e =
    let (b', f, a) = read_word64-leb128 value b rest h vb e in (b', rw f refl, ground arith)

-- `writeInt64` writes two integers that lie 2^31 apart as one.
pub write_int64-collides :
    (n : ℕ) (b : ByteArray)
    → n + 2 ^ 31 < 2 ^ 63
    → write_int64 (pos (n + 2 ^ 31)) b ≡ write_int64 (pos n) b
unfolding write_int64
write_int64-collides n b h = ap (λ t. write_uint32 t b) (omega arith)
