-- ===== src/Bytes/Write.antt =====
-- `write` (socket/bytearray.cpp) on a well-formed byte array.
use sylar_net_server_framewo.Common.{
  ℕ, ◌+◌, ◌*◌, ◌%◌, ◌≤◌, ◌≡◌, refl, sym, ap, ◌∙◌, inl, inr, max, List, [], ◌∷◌, ◌++◌, arith,
  Bool-cases, ◌==◌, length, take, drop, All-append, All-take, All-drop, concat, concat-append,
  length-append, length-take, length-drop, overwrite, splice, overwrite-append_right,
  take-append-drop, take-overwrite-splice,
}
use native.Mathlib.Nat.{add-mul, mod-lt}
use sylar_net_server_framewo.Bytes.Chain.{done, Block, Wrote, write_loop_lem}
use sylar_net_server_framewo.Bytes.State.{
  ByteArray, add_capacity, advance, write_at_cur, write, contents, IsValid,
}
use sylar_net_server_framewo.Bytes.Capacity.{
  CanGrow, add_capacity_lem, cur-le, length-bytes, length-front, position_split, split,
}

-- What a write of `buf` leaves, as a client sees it.
pub record Written (buf : List ℕ) (b b' : ByteArray) : Type 0 where
  pub valid : IsValid b'
  pub new_position : b'.position ≡ b.position + length buf
  pub new_size : b'.size ≡ max b.size (b.position + length buf)
  pub same_base : b'.base_size ≡ b.base_size
  pub same_endian : b'.endian ≡ b.endian
  pub new_contents : contents b' ≡ splice b.position buf (contents b)

module _ (b : ByteArray) (v : IsValid b) (buf : List ℕ)
    (room : b.position + length buf ≤ b.capacity) (chain : List Block) (moved : ℕ)
    (w : Wrote b.base_size (drop b.cur b.nodes) (b.position % b.base_size) buf chain moved) where
  advance-bytes :
      concat (advance b chain moved (length buf)).nodes ≡ overwrite b.position buf (concat b.nodes)
  advance-bytes =
      concat-append (take b.cur b.nodes) chain
      ∙ ap (λ t. concat (take b.cur b.nodes) ++ t) w.bytes
      ∙ sym (
          overwrite-append_right (b.position % b.base_size) b.position buf
            (concat (take b.cur b.nodes)) (concat (drop b.cur b.nodes))
            (omega (arith, length-front b v, position_split b v)))
      ∙ ap (overwrite b.position buf) (sym (split b v))

  advance-count : length (advance b chain moved (length buf)).nodes ≡ length b.nodes
  advance-count = omega (
    arith,
    length-append (take b.cur b.nodes) chain,
    w.count,
    length-take b.cur b.nodes,
    length-drop b.cur b.nodes,
    cur-le b v,
  )

  advance-IsValid : IsValid (advance b chain moved (length buf))
  advance-IsValid = record {
    base_pos = v.base_pos;
    some_node = omega (arith, advance-count, v.some_node);
    blocks = All-append _ (take b.cur b.nodes) chain (All-take _ b.cur b.nodes v.blocks) w.blocks;
    cap = v.cap ∙ ap (λ t. t * b.base_size) (sym advance-count);
    position-le = ground (arith, v.position-le);
    size-le = ground (arith, v.size-le);
    cur_low = omega (arith, w.low, position_split b v, add-mul b.cur moved b.base_size);
    cur_high = omega (arith, w.high, position_split b v, add-mul b.cur moved b.base_size);
  }

  advance-Written : Written buf b (advance b chain moved (length buf))
  advance-Written = record {
    valid = advance-IsValid;
    new_position = refl;
    new_size = ground arith;
    same_base = refl;
    same_endian = refl;
    new_contents =
        ap (take (advance b chain moved (length buf)).size) advance-bytes
        ∙ take-overwrite-splice _ b.position b.size buf (concat b.nodes) v.position-le
            (omega (arith, length-bytes b v, v.size-le)) (omega (arith, length-bytes b v))
            (ground arith);
  }

-- The copying of `write`, where the capacity is there.
pub write_at_cur_lem :
    (buf : List ℕ) (b : ByteArray)
    → IsValid b
    → b.position + length buf ≤ b.capacity
    → (b' : ByteArray) × (write_at_cur buf b ≡ done b') × Written buf b b'
unfolding write_at_cur
write_at_cur_lem buf b v room =
    let (chain, moved, e, w) =
      write_loop_lem b.base_size (drop b.cur b.nodes) (b.position % b.base_size) buf
        (All-drop _ b.cur b.nodes v.blocks) (mod-lt b.position v.base_pos)
        (omega (
          arith,
          length-bytes b v,
          ap length (split b v),
          length-front b v,
          position_split b v,
          length-append (concat (take b.cur b.nodes)) (concat (drop b.cur b.nodes)),
        )) in
    (advance b chain moved (length buf), rw e, advance-Written b v buf room chain moved w)

Written-nothing : (b : ByteArray) → IsValid b → Written [] b b
Written-nothing b v = record {
  valid = v;
  new_position = omega arith;
  new_size = omega (arith, v.position-le);
  same_base = refl;
  same_endian = refl;
  new_contents =
      sym (take-append-drop b.position (contents b))
      ∙ ap (λ t. take b.position (contents b) ++ drop t (contents b)) {x = b.position}
          (omega arith);
}

module _ (buf : List ℕ) (b : ByteArray) (v : IsValid b) (g : CanGrow b) where
  write_some :
      (b' : ByteArray) × (write_at_cur buf (add_capacity (length buf) b) ≡ done b')
      × Written buf b b'
  write_some =
      let grown = add_capacity_lem b v (length buf) g in
      let (b', e, w) =
        write_at_cur_lem buf (add_capacity (length buf) b) grown.valid
          (omega (arith, grown.room, grown.same_size, grown.same_position, v.position-le)) in
      (
        b',
        e,
        record {
          valid = w.valid;
          new_position = omega (arith, w.new_position, grown.same_position);
          new_size = omega (arith, w.new_size, grown.same_position, grown.same_size);
          same_base = w.same_base ∙ grown.same_base;
          same_endian = w.same_endian ∙ grown.same_endian;
          new_contents =
              w.new_contents
              ∙ ap (λ t. splice t buf (contents (add_capacity (length buf) b))) grown.same_position
              ∙ ap (splice b.position buf) grown.same_contents;
        },
      )

  -- On a well-formed array that is written at its end, or that is not full, `write` ends normally,
  -- keeps the array well-formed, and puts the bytes over the contents at the position, which moves
  -- behind them; the contents grow where the bytes reach past their end.
  pub write-Written : (b' : ByteArray) × (write buf b ≡ done b') × Written buf b b'
  unfolding write
  write-Written = elim (Bool-cases (length buf == 0)) [
    | inl e ↦ (b, rw e, empty buf (ground arith))
    | inr e ↦ let (b', f, w) = write_some in (b', rw e f, w)
  ]
    where
      empty : (bs : List ℕ) → length bs ≡ 0 → Written bs b b
      empty [] h = Written-nothing b v
      empty (x ∷ xs) h = absurd (omega arith)
