-- ===== src/Bytes/Rewound.antt =====
-- A full byte array whose position was set back: `addCapacity` then moves `m_cur` to the new block
-- (socket/bytearray.cpp), and `write` misses the bytes at the position.
use sylar_net_server_framewo.Common.{
  ◌*◌, true, false, ℕ, ◌+◌, ◌-◌, ◌%◌, ◌<◌, ◌≡◌, ap, ◌∙◌, ◌⊎◌, inl, inr, List, ◌++◌, arith, leb,
  ◌==◌, length, take, drop, replicate, concat, concat-append, take-append_left, take-drop-take,
  take-length,
}
use sylar_net_server_framewo.Bytes.Chain.{done, fault, Block, write_loop-cases}
use sylar_net_server_framewo.Bytes.State.{
  ByteArray, get_capacity, new_node, ceil_div, add_capacity, advance, write_at_cur, write, contents,
  IsValid,
}
use sylar_net_server_framewo.Bytes.Capacity.{length-bytes}

module _ (buf : List ℕ) (b : ByteArray) (v : IsValid b) (full : b.size ≡ b.capacity)
    (some_bytes : 0 < length buf) where
  -- The array that the copying starts from, with the blocks `extra` added.
  at_new_block : List Block → ℕ → ByteArray
  at_new_block extra capacity = record b {
    nodes = b.nodes ++ extra;
    capacity = capacity;
    cur = length b.nodes;
  }

  add_capacity-full :
      (extra : List Block) × (capacity : ℕ) × (add_capacity (length buf) b
        ≡ at_new_block extra capacity)
  unfolding add_capacity at_new_block
  add_capacity-full = (
    replicate (ceil_div (length buf - get_capacity b) b.base_size) (new_node b.base_size b.junk),
    b.capacity + ceil_div (length buf - get_capacity b) b.base_size * b.base_size,
    rw (some, over, none_left),
  )
    where
      some : (length buf == 0) ≡ false
      some = ground arith

      over : leb (length buf) (get_capacity b) ≡ false
      over = ground arith

      none_left : (get_capacity b == 0) ≡ true
      none_left = ground arith

  -- The new blocks stand behind all that the array holds.
  old-contents :
      (extra chain : List Block) (capacity moved n : ℕ)
      → take b.size (contents (advance (at_new_block extra capacity) chain moved n)) ≡ contents b
  unfolding at_new_block
  old-contents extra chain capacity moved n =
      take-drop-take b.size 0 (advance (at_new_block extra capacity) chain moved n).size
        (concat (take (length b.nodes) (b.nodes ++ extra) ++ chain)) (ground arith)
      ∙ ap (λ t. take b.size (concat (t ++ chain)))
          (take-append_left (length b.nodes) b.nodes extra (omega arith) ∙ take-length b.nodes)
      ∙ ap (take b.size) (concat-append b.nodes chain)
      ∙ take-append_left b.size (concat b.nodes) (concat chain)
          (omega (arith, length-bytes b v, v.size-le))

  -- On a full array a write of some bytes never touches what the array holds, wherever its position
  -- stands: it ends with the old contents as they were, or it runs off the end of the block list.
  pub write_full-misses :
      (write buf b ≡ fault)
      ⊎ ((b' : ByteArray) × (write buf b ≡ done b') × (take b.size (contents b') ≡ contents b))
  unfolding write write_at_cur
  write_full-misses =
      let (extra, capacity, e) = add_capacity-full in
      let m = at_new_block extra capacity in
      let some : (length buf == 0) ≡ false = ground arith in
      elim (write_loop-cases (drop m.cur m.nodes) (m.position % m.base_size) buf) [
        | inl f ↦ inl (rw (some, e, f))
        | inr (r, f) ↦ inr (
          advance m r.0 r.1 (length buf),
          rw (some, e, f),
          old-contents extra r.0 capacity r.1 (length buf),
        )
      ]
