-- ===== src/Bytes/Varint.antt =====
-- Variable-length integers: `writeUint32`, `writeUint64` and their readers (socket/bytearray.cpp).
use sylar_net_server_framewo.Common.{
  false, lt→ltb, ge→ltb_false, ℕ, zero, suc, ◌+◌, ◌-◌, ◌*◌, ◌/◌, ◌%◌, ◌^◌, ◌≤◌, ◌<◌, ◌≡◌, refl, sym,
  ap, ◌∙◌, List, [], ◌∷◌, ◌++◌, arith, tests, Bool-cases, inl, inr, leb, ltb, if◌then◌else◌, length,
  take, drop, drop-drop, length-drop,
}
use native.Mathlib.Nat.{mod-eq_of_lt, div-add-mod}
use native.Mathlib.Numerals.{towards_suc}
use sylar_net_server_framewo.Bytes.Chain.{Outcome, done, fault, ◌>>=◌}
use sylar_net_server_framewo.Bytes.State.{ByteArray, write, read, contents, IsValid}
use sylar_net_server_framewo.Bytes.Capacity.{length-contents}
use sylar_net_server_framewo.Bytes.Read.{read-Readout}

-- `while(value >= 0x80) { data[i++] = (value & 0x7f) | 0x80; value >>= 7; }` with `slots` bytes of
-- `data` left. The low seven bits are `value % 128`; setting the eighth adds 128; a store behind the
-- end of `data` is a fault.
unfoldable pub groups : ℕ → ℕ → Outcome (List ℕ)
groups zero value = if leb 128 value then fault else done []
groups (suc slots) value =
    let rest = groups slots (value / 128) >>= λ r. done ((value % 128 + 128) ∷ r) in
    if leb 128 value then rest else done []

-- `uint8_t data[5]` and `uint8_t data[10]`
unfoldable pub write_uint32 : ℕ → ByteArray → Outcome ByteArray
write_uint32 value b = groups 5 value >>= λ data_bytes. write data_bytes b

unfoldable pub write_uint64 : ℕ → ByteArray → Outcome ByteArray
write_uint64 value b = groups 10 value >>= λ data_bytes. write data_bytes b

abbrev pub first_byte : List ℕ → ℕ
first_byte [] = 0
first_byte (x ∷ xs) = x

-- `readFuint8`
abbrev pub read_fuint8 : ByteArray → Outcome (ℕ × ByteArray)
read_fuint8 b = read 1 b >>= λ r. done (first_byte r.0, r.1)

-- The loop of the readers, `i` from 0 by steps of 7, for a result of `w` bits. What is shifted in lies
-- above the bits that `res` has, so that `|=` adds; bits shifted out of the word are lost.
unfoldable pub read_groups : ℕ → ℕ → ℕ → ℕ → ByteArray → Outcome (ℕ × ByteArray)
read_groups w zero i res b = done (res, b)
read_groups w (suc rounds) i res b = read_fuint8 b >>= λ r.
    let rest = read_groups w rounds (i + 7) (res + r.0 % 128 * 2 ^ i % 2 ^ w) r.1 in
    if ltb r.0 128 then done (res + r.0 * 2 ^ i % 2 ^ w, r.1) else rest

-- `for(int i = 0; i < 32; i += 7)` and `for(int i = 0; i < 64; i += 7)`, as words: the conversion to
-- the return type is `to_int32` of Zigzag.
abbrev pub read_word32 : ByteArray → Outcome (ℕ × ByteArray)
read_word32 b = read_groups 32 5 0 0 b

abbrev pub read_word64 : ByteArray → Outcome (ℕ × ByteArray)
read_word64 b = read_groups 64 10 0 0 b

-- The format that the readers read: seven bits a byte, the lowest first, and the eighth bit set on
-- all but the last byte.
unfoldable pub leb128 : ℕ → ℕ → List ℕ
leb128 zero value = value ∷ []
leb128 (suc k) value =
    let rest = leb128 k (value / 128) in
    if leb 128 value then (value % 128 + 128) ∷ rest else value ∷ []

groups-leb128 :
    (k slots value : ℕ)
    → value < 128 ^ suc k
    → k ≤ slots
    → (data_bytes : List ℕ) × (last : ℕ) × (groups slots value ≡ done data_bytes)
      × (leb128 k value ≡ data_bytes ++ last ∷ [])
unfolding groups leb128
groups-leb128 zero zero value h le = ([], value, ground arith, refl)
groups-leb128 zero (suc slots) value h le =
    let less : leb 128 value ≡ false = ground arith in ([], value, rw less, refl)
groups-leb128 (suc k) zero value h le = absurd (omega arith)
groups-leb128 (suc k) (suc slots) value h le = elim (Bool-cases (leb 128 value)) [
  | inl more ↦
      let (data_bytes, last, e, f) =
        groups-leb128 k slots (value / 128) (omega arith) (omega arith) in
      ((value % 128 + 128) ∷ data_bytes, last, rw (more, e), rw (more, f))
  | inr less ↦ ([], value, rw less, rw less)
]

-- The state behind one byte that is read.
read_one :
    (b : ByteArray) (x : ℕ) (rest : List ℕ)
    → IsValid b
    → drop b.position (contents b) ≡ x ∷ rest
    → (b' : ByteArray) × (read_fuint8 b ≡ done (x, b'))
      × IsValid b'
      × (drop b'.position (contents b') ≡ rest)
      × (b'.position ≡ b.position + 1)
      × (contents b' ≡ contents b)
read_one b x rest v e =
    let left : suc (length rest) ≡ b.size - b.position =
      omega (arith, ap length e, length-drop b.position (contents b), length-contents b v) in
    let (out, b', f, r) = read-Readout 1 b v (omega (arith, v.size-le)) (omega arith) in
    (
      b',
      rw f (ap (λ t. done (first_byte t, b')) (r.bytes ∙ ap (take 1) e)),
      r.valid,
      ap (λ t. drop t (contents b')) r.new_position
          ∙ ap (drop (b.position + 1)) r.same_contents
          ∙ sym (drop-drop 1 b.position (contents b))
          ∙ ap (drop 1) e,
      r.new_position,
      r.same_contents,
    )

shift_seven : (i : ℕ) → 2 ^ (i + 7) ≡ 128 * 2 ^ i
shift_seven i = simp towards_suc (omega arith)

-- The lowest group of a value and the rest, both shifted by `i`.
split_value : (value i : ℕ) → value * 2 ^ i ≡ value % 128 * 2 ^ i + value / 128 * 2 ^ (i + 7)
split_value value i = omega (
  arith,
  ap (λ (t : ℕ). t * 2 ^ i) (div-add-mod value 128),
  ap (λ (t : ℕ). value / 128 * t) (shift_seven i),
)

-- What the readers leave behind `n` bytes.
pub record After (b : ByteArray) (n : ℕ) (rest : List ℕ) (b' : ByteArray) : Type 0 where
  pub valid : IsValid b'
  pub tail : drop b'.position (contents b') ≡ rest
  pub new_position : b'.position ≡ b.position + n
  pub same_contents : contents b' ≡ contents b

module _ (w rounds i res : ℕ) (b : ByteArray) (vb : IsValid b) where
  read_last :
      (value : ℕ) (rest : List ℕ)
      → value < 128
      → res + value * 2 ^ i < 2 ^ w
      → drop b.position (contents b) ≡ value ∷ rest
      → (b' : ByteArray) × (read_groups w (suc rounds) i res b ≡ done (res + value * 2 ^ i, b'))
        × After b 1 rest b'
  unfolding read_groups
  read_last value rest h hw e =
      let (b', f, v', t, p, c) = read_one b value rest vb e in
      (
        b',
        rw (f, lt→ltb value 128 h, mod-eq_of_lt {n = value * 2 ^ i} {m = 2 ^ w} (omega arith)) refl,
        record { valid = v'; tail = t; new_position = p; same_contents = c },
      )

  read_more :
      (g : ℕ) (rest : List ℕ)
      → g < 128
      → res + g * 2 ^ i < 2 ^ w
      → drop b.position (contents b) ≡ (g + 128) ∷ rest
      → (b' : ByteArray) × (read_groups w (suc rounds) i res b
          ≡ read_groups w rounds (i + 7) (res + g * 2 ^ i) b')
        × After b 1 rest b'
  unfolding read_groups
  read_more g rest h hw e =
      let (b', f, v', t, p, c) = read_one b (g + 128) rest vb e in
      let low : (g + 128) % 128 ≡ g = omega arith in
      (
        b',
        rw
            (
              f,
              ge→ltb_false (g + 128) 128 (omega arith),
              low,
              mod-eq_of_lt {n = g * 2 ^ i} {m = 2 ^ w} (omega arith),
            )
            refl,
        record { valid = v'; tail = t; new_position = p; same_contents = c },
      )

-- What the readers return for a value in that format, above the accumulated bits.
read_groups-leb128 :
    (w k rounds value i res : ℕ) (b : ByteArray) (rest : List ℕ)
    → value < 128 ^ suc k
    → k < rounds
    → res + value * 2 ^ i < 2 ^ w
    → IsValid b
    → drop b.position (contents b) ≡ leb128 k value ++ rest
    → (b' : ByteArray) × (read_groups w rounds i res b ≡ done (res + value * 2 ^ i, b'))
      × After b (length (leb128 k value)) rest b'
unfolding leb128
read_groups-leb128 w k zero value i res b rest hv hk hw vb e = absurd (omega arith)
read_groups-leb128 w zero (suc rounds) value i res b rest hv hk hw vb e =
    read_last w rounds i res b vb value rest (omega arith) hw e
read_groups-leb128 w (suc k) (suc rounds) value i res b rest hv hk hw vb e =
    elim (Bool-cases (leb 128 value)) [
      | inr less ↦
          let (b', f, a) =
            read_last w rounds i res b vb value rest (omega tests) hw (e ∙ (rw less refl)) in
          (b', f, rw less a)
      | inl more ↦
          let (b₁, f, a) =
            read_more w rounds i res b vb (value % 128) (leb128 k (value / 128) ++ rest)
              (omega arith) (omega (arith, split_value value i)) (e ∙ (rw more refl)) in
          let (b₂, g, c) =
            read_groups-leb128 w k rounds (value / 128) (i + 7) (res + value % 128 * 2 ^ i) b₁ rest
              (omega arith) (omega arith) (omega (arith, split_value value i)) a.valid a.tail in
          (
            b₂,
            f ∙ g ∙ ap (λ t. done (t, b₂)) (omega (arith, split_value value i)),
            rw more (record {
              valid = c.valid;
              tail = c.tail;
              new_position = omega (arith, a.new_position, c.new_position);
              same_contents = c.same_contents ∙ a.same_contents;
            }),
          )
    ]

-- `readUint32` reads every 32-bit value in the seven-bits-a-byte format, and stops behind it.
pub read_word32-leb128 :
    (value : ℕ) (b : ByteArray) (rest : List ℕ)
    → value < 2 ^ 32
    → IsValid b
    → drop b.position (contents b) ≡ leb128 4 value ++ rest
    → (b' : ByteArray) × (read_word32 b ≡ done (value, b'))
      × After b (length (leb128 4 value)) rest b'
read_word32-leb128 value b rest h v e =
    let (b', f, a) =
      read_groups-leb128 32 4 5 value 0 0 b rest (omega arith) (omega arith) (omega arith) v e in
    (b', f ∙ ap (λ t. done (t, b')) (omega arith), a)

-- `readUint64`, before its result is narrowed, reads every 64-bit value in the seven-bits-a-byte
-- format, and stops behind it.
pub read_word64-leb128 :
    (value : ℕ) (b : ByteArray) (rest : List ℕ)
    → value < 2 ^ 64
    → IsValid b
    → drop b.position (contents b) ≡ leb128 9 value ++ rest
    → (b' : ByteArray) × (read_word64 b ≡ done (value, b'))
      × After b (length (leb128 9 value)) rest b'
read_word64-leb128 value b rest h v e =
    let (b', f, a) =
      read_groups-leb128 64 9 10 value 0 0 b rest (omega arith) (omega arith) (omega arith) v e in
    (b', f ∙ ap (λ t. done (t, b')) (omega arith), a)

-- What a writer writes: the format without its last byte.
abbrev pub DropsLast : (ℕ → ByteArray → Outcome ByteArray) → ℕ → ℕ → ByteArray → Type 0
DropsLast writer k value b =
    (data_bytes : List ℕ) × (last : ℕ) × (leb128 k value ≡ data_bytes ++ last ∷ [])
    × (writer value b ≡ write data_bytes b)

-- `writeUint32` of a 32-bit value never overruns its buffer, and what it writes is the format of the reader without
-- its last byte: the loop ends before the last seven bits are stored.
pub write_uint32-DropsLast :
    (value : ℕ) (b : ByteArray) → value < 2 ^ 32 → DropsLast write_uint32 4 value b
unfolding write_uint32
write_uint32-DropsLast value b h =
    let (data_bytes, last, e, f) = groups-leb128 4 5 value (omega arith) (omega arith) in
    (data_bytes, last, f, rw e)

-- `writeUint64` of a 64-bit value never overruns its buffer, and what it writes is the format of the
-- reader without its last byte.
pub write_uint64-DropsLast :
    (value : ℕ) (b : ByteArray) → value < 2 ^ 64 → DropsLast write_uint64 9 value b
unfolding write_uint64
write_uint64-DropsLast value b h =
    let (data_bytes, last, e, f) = groups-leb128 9 10 value (omega arith) (omega arith) in
    (data_bytes, last, f, rw e)

-- A value below 128 is not written at all.
pub write_uint32-small : (value : ℕ) (b : ByteArray) → value < 128 → write_uint32 value b ≡ done b
unfolding write_uint32 groups write
write_uint32-small value b h = ground arith

pub write_uint64-small : (value : ℕ) (b : ByteArray) → value < 128 → write_uint64 value b ≡ done b
unfolding write_uint64 groups write
write_uint64-small value b h = ground arith
