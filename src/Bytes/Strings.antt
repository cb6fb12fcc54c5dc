-- ===== src/Bytes/Strings.antt =====
-- Strings with a length in front: `writeString*` and `readString*` (socket/bytearray.cpp).
use sylar_net_server_framewo.Common.{
  ℕ, ◌+◌, ◌%◌, ◌^◌, ◌<◌, ◌≡◌, refl, ap, ◌∙◌, inl, List, ◌++◌, arith, length, take, drop,
  length-append, take-append_left, drop-append_right, take-length, take-all, drop-all,
}
use mathlib.Core.List.{append_assoc, append-nil}
use native.Mathlib.Nat.{mod-eq_of_lt}
use sylar_net_server_framewo.Bytes.Chain.{Outcome, done, ◌>>=◌}
use sylar_net_server_framewo.Bytes.State.{
  ByteArray, Endian, write, read, set_position, contents, IsValid,
}
use sylar_net_server_framewo.Bytes.Write.{write-Written}
use sylar_net_server_framewo.Bytes.Capacity.{length-contents}
use sylar_net_server_framewo.Bytes.Read.{read-Readout}
use sylar_net_server_framewo.Bytes.RoundTrip.{read_at-Trip}
use sylar_net_server_framewo.Bytes.Words.{
  write_fixed, read_fixed, wire, write_fixed-wire, read_fixed-wire, length-wire,
}
use sylar_net_server_framewo.Bytes.Varint.{write_uint64, write_uint64-small}
use sylar_net_server_framewo.Bytes.Zigzag.{read_uint64, to_pattern}

-- `writeString`
abbrev pub write_string : List ℕ → ByteArray → Outcome ByteArray
write_string value b = write value b

-- `writeStringF16`, `writeStringF32` and `writeStringF64`: the length as an integer of `k` bytes.
unfoldable pub write_string_fixed : Endian → ℕ → List ℕ → ByteArray → Outcome ByteArray
write_string_fixed host k value b = write_fixed host k (length value % 256 ^ k) b >>= write value

-- `readStringF16`, `readStringF32` and `readStringF64`.
unfoldable pub read_string_fixed : Endian → ℕ → ByteArray → Outcome (List ℕ × ByteArray)
read_string_fixed host k b = read_fixed host k b >>= λ r. read r.0 r.1

unfoldable pub write_string_vint : List ℕ → ByteArray → Outcome ByteArray
write_string_vint value b = write_uint64 (length value % 2 ^ 64) b >>= write value

-- `uint64_t len = readUint64()` widens an `int32_t`.
unfoldable pub read_string_vint : ByteArray → Outcome (List ℕ × ByteArray)
read_string_vint b = read_uint64 b >>= λ r. read (to_pattern 64 r.0) r.1

-- A write at the end of the contents appends.
pub record Appended (buf : List ℕ) (b b' : ByteArray) : Type 0 where
  pub valid : IsValid b'
  pub at_end : b'.position ≡ b'.size
  pub new_size : b'.size ≡ b.size + length buf
  pub same_endian : b'.endian ≡ b.endian
  pub new_contents : contents b' ≡ contents b ++ buf

module _ (buf : List ℕ) (b : ByteArray) (v : IsValid b) (e : b.position ≡ b.size) where
  pub write-Appended : (b' : ByteArray) × (write buf b ≡ done b') × Appended buf b b'
  write-Appended =
      let (b', f, w) = write-Written buf b v (inl e) in
      (
        b',
        f,
        record {
          valid = w.valid;
          at_end = omega (arith, w.new_position, w.new_size);
          new_size = omega (arith, w.new_size);
          same_endian = w.same_endian;
          new_contents = w.new_contents ∙ appended;
        },
      )
    where
      appended :
          take b.position (contents b) ++ (buf ++ drop (b.position + length buf) (contents b))
          ≡ contents b ++ buf
      appended =
          ap (λ t. t ++ (buf ++ drop (b.position + length buf) (contents b)))
            (take-all b.position (contents b) (omega (arith, length-contents b v)))
          ∙ ap (λ t. contents b ++ (buf ++ t))
              (drop-all (b.position + length buf) (contents b) (omega (arith, length-contents b v)))
          ∙ ap (◌++◌ (contents b)) (append-nil buf)

module _ (host : Endian) (k : ℕ) (value : List ℕ) (b : ByteArray) (v : IsValid b)
    (e : b.position ≡ b.size) (hk : 0 < k) (short : length value < 256 ^ k) where
  -- What is written: the length in the buffer's byte order, and the bytes.
  abbrev framed : List ℕ
  framed = wire b.endian k (length value) ++ value

  write_string_fixed-Appended :
      (b' : ByteArray) × (write_string_fixed host k value b ≡ done b') × Appended framed b b'
  unfolding write_string_fixed
  write_string_fixed-Appended =
      let (b₁, f, a) = write-Appended (wire b.endian k (length value)) b v e in
      let (b₂, g, c) = write-Appended value b₁ a.valid a.at_end in
      (
        b₂,
        rw (mod-eq_of_lt short, write_fixed-wire host k (length value) b, f) g,
        record {
          valid = c.valid;
          at_end = c.at_end;
          new_size =
              omega (
                arith,
                c.new_size,
                a.new_size,
                length-append (wire b.endian k (length value)) value,
              );
          same_endian = c.same_endian ∙ a.same_endian;
          new_contents =
              c.new_contents
              ∙ ap (λ t. t ++ value) a.new_contents
              ∙ append_assoc (contents b) (wire b.endian k (length value)) value;
        },
      )

  -- The two parts of a frame behind the old contents.
  frame-length : take k (drop b.position (contents b ++ framed)) ≡ wire b.endian k (length value)
  frame-length =
      ap (take k)
        (drop-append_right 0 b.position (contents b) framed (omega (arith, length-contents b v)))
      ∙ take-append_left k (wire b.endian k (length value)) value
          (omega (arith, length-wire b.endian k (length value)))
      ∙ take-all k (wire b.endian k (length value))
          (omega (arith, length-wire b.endian k (length value)))

  frame-value : take (length value) (drop (b.position + k) (contents b ++ framed)) ≡ value
  frame-value =
      ap (take (length value)) (
        drop-append_right k (b.position + k) (contents b) framed
          (omega (arith, length-contents b v))
        ∙ drop-append_right 0 k (wire b.endian k (length value)) value
            (omega (arith, length-wire b.endian k (length value))))
      ∙ take-length value

  -- On a well-formed array that is written at its end, a non-empty string whose length fits in the
  -- `k` bytes of the length field is read back from where it was written, on a machine of either
  -- byte order.
  pub read_string_fixed-write_string_fixed :
      0 < length value
      → (b' : ByteArray) × ((write_string_fixed host k value b >>= λ c.
            set_position b.position c >>= read_string_fixed host k)
          ≡ done (value, b'))
        × IsValid b'
        × (contents b' ≡ contents b ++ framed)
  unfolding read_string_fixed
  read_string_fixed-write_string_fixed some =
      let (c, f, a) = write_string_fixed-Appended in
      let total : c.size ≡ b.position + (k + length value) = omega (
        arith,
        a.new_size,
        length-append (wire b.endian k (length value)) value,
        length-wire b.endian k (length value),
      ) in
      let (b₁, b₂, t) = read_at-Trip b.position k c a.valid (omega arith) (omega arith) in
      let got : read_fixed host k b₁ ≡ done (length value, b₂) =
        read_fixed-wire host b.endian k (length value) b₁ b₂ short (t.mid_endian ∙ a.same_endian) (
          t.got
          ∙ ap (λ x. done (x, b₂))
              (ap (λ x. take k (drop b.position x)) a.new_contents ∙ frame-length)) in
      let (out, b₃, g, r) =
        read-Readout (length value) b₂ t.valid
          (omega (arith, t.new_position, t.same_size, t.valid.size-le))
          (omega (arith, t.new_position, t.same_size)) in
      let same : contents b₂ ≡ contents b ++ framed = t.same_contents ∙ a.new_contents in
      (
        b₃,
        rw (f, t.moved, got)
            (g
              ∙ ap (λ x. done (x, b₃))
                  (r.bytes
                    ∙ ap (λ x. take (length value) (drop x (contents b₂))) t.new_position
                    ∙ ap (λ x. take (length value) (drop (b.position + k) x)) same
                    ∙ frame-value)),
        r.valid,
        r.same_contents ∙ same,
      )

-- A string of fewer than 128 bytes is written by `writeStringVint` without its length.
pub write_string_vint-bare :
    (value : List ℕ) (b : ByteArray)
    → length value < 128
    → write_string_vint value b ≡ write_string value b
unfolding write_string_vint
write_string_vint-bare value b h =
    rw
      (
        mod-eq_of_lt {n = length value} {m = 2 ^ 64} (omega arith),
        write_uint64-small (length value) b h,
      )
      refl
