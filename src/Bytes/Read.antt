-- ===== src/Bytes/Read.antt =====
-- `read`, `setPosition` and `clear` (socket/bytearray.cpp), and reading back what was written.
use sylar_net_server_framewo.Common.{
  ℕ, suc, ◌+◌, ◌-◌, ◌*◌, ◌%◌, ◌≤◌, ◌<◌, ◌≡◌, refl, sym, ap, ◌∙◌, ◌⊎◌, inl, inr, max, List, [], ◌∷◌,
  arith, tests, Bool-cases, leb, ltb, if◌then◌else◌, length, take, drop, All, All-drop, concat,
  length-append, drop-append_right, take-drop-take, ge→ltb_false, lt→ltb, le→leb,
}
use native.Mathlib.Nat.{add-mul, mod-lt, zero-add}
use sylar_net_server_framewo.Bytes.Chain.{
  Outcome, done, out_of_range, fault, Block, read_loop, Took, read_loop_lem,
}
use sylar_net_server_framewo.Bytes.State.{
  ByteArray, get_read_size, at_cur, read, seek, set_position, contents, IsValid,
}
use sylar_net_server_framewo.Bytes.Capacity.{split, length-bytes, length-front, position_split}

-- `m_cur` is no null pointer.
abbrev pub HasCur : ByteArray → Type 0
HasCur b = b.position < b.capacity

-- What a read leaves.
pub record Readout (n : ℕ) (b : ByteArray) (out : List ℕ) (b' : ByteArray) : Type 0 where
  pub valid : IsValid b'
  pub bytes : out ≡ take n (drop b.position (contents b))
  pub new_position : b'.position ≡ b.position + n
  pub same_size : b'.size ≡ b.size
  pub same_base : b'.base_size ≡ b.base_size
  pub same_endian : b'.endian ≡ b.endian
  pub same_contents : contents b' ≡ contents b
  pub same_capacity : b'.capacity ≡ b.capacity

-- The loop of `read` from `m_cur`, for as many bytes as the blocks hold behind the position.
pub read_chain :
    (n : ℕ) (b : ByteArray)
    → IsValid b
    → b.position + n ≤ b.capacity
    → (out : List ℕ) × (moved : ℕ) × (read_loop (drop b.cur b.nodes) (b.position % b.base_size) n
        ≡ done (out, moved))
      × (out ≡ take n (drop b.position (concat b.nodes)))
      × Took b.base_size (drop b.cur b.nodes) (b.position % b.base_size) n out moved
read_chain n b v room =
    let (out, moved, e, t) =
      read_loop_lem b.base_size (drop b.cur b.nodes) (b.position % b.base_size) n
        (All-drop _ b.cur b.nodes v.blocks) (mod-lt b.position v.base_pos)
        (omega (
          arith,
          length-bytes b v,
          ap length (split b v),
          length-front b v,
          position_split b v,
          length-append (concat (take b.cur b.nodes)) (concat (drop b.cur b.nodes)),
        )) in
    (
      out,
      moved,
      e,
      t.bytes
          ∙ ap (take n) (
              sym (
                drop-append_right (b.position % b.base_size) b.position
                  (concat (take b.cur b.nodes)) (concat (drop b.cur b.nodes))
                  (omega (arith, length-front b v, position_split b v)))
              ∙ ap (drop b.position) (sym (split b v))),
      t,
    )

pub cut-contents :
    (n : ℕ) (b : ByteArray)
    → IsValid b
    → n ≤ get_read_size b
    → take n (drop b.position (concat b.nodes)) ≡ take n (drop b.position (contents b))
cut-contents n b v enough =
    sym (take-drop-take n b.position b.size (concat b.nodes) (omega (arith, v.position-le)))

pub at_cur-done {ℓ} :
    {A : Type ℓ} (b : ByteArray) (f : List Block → Outcome A)
    → IsValid b
    → HasCur b
    → at_cur b f ≡ f (drop b.cur b.nodes)
at_cur-done {A} b f v h = go (drop b.cur b.nodes) refl
  where
    go : (c : List Block) → drop b.cur b.nodes ≡ c → at_cur b f ≡ f (drop b.cur b.nodes)
    go [] e = absurd (
        omega (
          arith,
          ap length (split b v),
          length-bytes b v,
          length-front b v,
          ap (λ t. length (concat t)) e,
          v.cur_low,
          length-append (concat (take b.cur b.nodes)) (concat (drop b.cur b.nodes)),
        ))
    go (x ∷ xs) e = ground arith

module _ (n : ℕ) (b : ByteArray) (v : IsValid b) (h : HasCur b) where
  -- A read of no more than what is left ends normally; it returns the contents from the position on
  -- and moves the position behind them, on a well-formed array whose position is not at the very
  -- end of its capacity.
  pub read-Readout :
      n ≤ get_read_size b
      → (out : List ℕ) × (b' : ByteArray) × (read n b ≡ done (out, b')) × Readout n b out b'
  unfolding read
  read-Readout enough =
      let (out, moved, e, f, t) = read_chain n b v (omega (arith, v.size-le, v.position-le)) in
      (
        out,
        record b { cur = b.cur + moved; position = b.position + n },
        rw (ge→ltb_false (get_read_size b) n enough, at_cur-done b _ v h, e),
        record {
          valid = record {
            base_pos = v.base_pos;
            some_node = v.some_node;
            blocks = v.blocks;
            cap = v.cap;
            position-le = omega (arith, v.position-le);
            size-le = v.size-le;
            cur_low = omega (arith, t.low, position_split b v, add-mul b.cur moved b.base_size);
            cur_high = omega (arith, t.high, position_split b v, add-mul b.cur moved b.base_size);
          };
          bytes = f ∙ cut-contents n b v enough;
          new_position = refl;
          same_size = refl;
          same_base = refl;
          same_endian = refl;
          same_contents = refl;
          same_capacity = refl;
        },
      )

-- Asking for more than what is left throws and nothing else.
pub read-out_of_range : (n : ℕ) (b : ByteArray) → get_read_size b < n → read n b ≡ out_of_range
unfolding read
read-out_of_range n b h = rw (lt→ltb _ _ h)

seek_found :
    (base : ℕ) (chain : List Block) (i v : ℕ)
    → 0 < base
    → All (λ x. length x ≡ base) chain
    → v < length chain * base
    → (j : ℕ) × (seek chain i v ≡ done (i + j)) × (j * base ≤ v) × (v < j * base + base)
unfolding seek
seek_found base [] i v hb h lt = absurd (omega arith)
seek_found base (block ∷ next) i v hb h lt = elim (Bool-cases (leb (length block) v)) [
  | inl le ↦
      let (j, e, lo, hi) =
        seek_found base next (suc i) (v - length block) hb h.1 (omega (tests, h.0)) in
      (suc j, rw (le, e) (ap done (omega arith)), omega (tests, h.0), omega (tests, h.0))
  | inr gt ↦ (0, rw gt (ap done (omega arith)), omega arith, omega (tests, h.0))
]

seek-fault :
    (base : ℕ) (chain : List Block) (i v : ℕ)
    → All (λ x. length x ≡ base) chain
    → length chain * base ≤ v
    → seek chain i v ≡ fault
unfolding seek
seek-fault base [] i v h le = refl
seek-fault base (block ∷ next) i v h le =
    rw (le→leb (length block) v (omega (arith, h.0)))
      (seek-fault base next (suc i) (v - length block) h.1 (omega (arith, h.0)))

-- What `setPosition` leaves.
pub record Moved (p : ℕ) (b b' : ByteArray) : Type 0 where
  pub valid : IsValid b'
  pub new_position : b'.position ≡ p
  pub new_size : b'.size ≡ max b.size p
  pub same_base : b'.base_size ≡ b.base_size
  pub same_endian : b'.endian ≡ b.endian
  pub same_capacity : b'.capacity ≡ b.capacity
  pub same_nodes : b'.nodes ≡ b.nodes

module _ (p : ℕ) (b : ByteArray) (v : IsValid b) where
  pub set_position-Moved :
      p < b.capacity → (b' : ByteArray) × (set_position p b ≡ done b') × Moved p b b'
  unfolding set_position
  set_position-Moved lt =
      let (j, e, lo, hi) =
        seek_found b.base_size b.nodes 0 p v.base_pos v.blocks (omega (arith, v.cap)) in
      (
        record b { position = p; size = if ltb b.size p then p else b.size; cur = 0 + j },
        rw (ge→ltb_false b.capacity p (omega arith), e),
        record {
          valid = record {
            base_pos = v.base_pos;
            some_node = v.some_node;
            blocks = v.blocks;
            cap = v.cap;
            position-le = ground arith;
            size-le = ground (arith, v.size-le);
            cur_low = rw (zero-add j) lo;
            cur_high = rw (zero-add j) hi;
          };
          new_position = refl;
          new_size = ground arith;
          same_base = refl;
          same_endian = refl;
          same_capacity = refl;
          same_nodes = refl;
        },
      )

  -- `setPosition` on a well-formed array, for every argument: within the capacity it moves there and
  -- keeps the array well-formed; past the capacity it throws; and at the capacity itself it runs
  -- off the end of the block list.
  pub set_position-cases :
      ((p < b.capacity) × (b' : ByteArray) × (set_position p b ≡ done b') × Moved p b b')
      ⊎ (((p ≡ b.capacity) × (set_position p b ≡ fault))
          ⊎ ((b.capacity < p) × (set_position p b ≡ out_of_range)))
  set_position-cases = elim (Bool-cases (ltb p b.capacity)) [
    | inl lt ↦ let (b', e, m) = set_position-Moved (omega tests) in inl (omega tests, b', e, m)
    | inr ge ↦ elim (Bool-cases (ltb b.capacity p)) [
      | inl gt ↦ inr (inr (omega tests, unfold set_position in rw gt))
      | inr le ↦
          let eq : p ≡ b.capacity = omega tests in
          inr (
            inl (
              eq,
              unfold set_position in
                  rw (le, seek-fault b.base_size b.nodes 0 p v.blocks (omega (arith, v.cap))),
            ))
    ]
  ]
