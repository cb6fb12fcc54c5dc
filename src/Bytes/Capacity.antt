-- ===== src/Bytes/Capacity.antt =====
-- `addCapacity` (socket/bytearray.cpp) on a well-formed byte array.
use sylar_net_server_framewo.Common.{
  ℕ, suc, ◌+◌, ◌-◌, ◌*◌, ◌%◌, ◌≤◌, ◌<◌, ◌≡◌, refl, sym, ap, ◌∙◌, ◌⊎◌, inl, inr, ◌++◌, arith, tests,
  Bool-cases, leb, ◌==◌, if◌then◌else◌, length, take, drop, replicate, All, All-append,
  All-replicate, All-take, concat, concat-append, length-concat, length-append, length-replicate,
  length-take, take-append-drop, take-append_left, mod_of_bounds, ceil_div-ge,
}
use native.Mathlib.Nat.{le_of_mul-le-mul_right, lt_of_mul-lt-mul_right, add-mul}
use sylar_net_server_framewo.Bytes.State.{
  ByteArray, get_capacity, new_node, ceil_div, add_capacity, contents, IsValid,
}

-- The bytes of the blocks before `m_cur`, and of those from `m_cur` on.
module _ (b : ByteArray) (v : IsValid b) where
  pub cur-le : b.cur ≤ length b.nodes
  cur-le =
      le_of_mul-le-mul_right {m = b.cur} {n = length b.nodes} {k = b.base_size}
        (omega (arith, v.cur_low, v.position-le, v.size-le, v.cap)) v.base_pos

  pub split : concat b.nodes ≡ concat (take b.cur b.nodes) ++ concat (drop b.cur b.nodes)
  split =
      ap concat (sym (take-append-drop b.cur b.nodes))
      ∙ concat-append (take b.cur b.nodes) (drop b.cur b.nodes)

  pub length-bytes : length (concat b.nodes) ≡ b.capacity
  length-bytes = length-concat b.base_size b.nodes v.blocks ∙ sym v.cap

  pub length-contents : length (contents b) ≡ b.size
  length-contents = omega (arith, length-take b.size (concat b.nodes), length-bytes, v.size-le)

  pub length-front : length (concat (take b.cur b.nodes)) ≡ b.cur * b.base_size
  length-front =
      length-concat b.base_size (take b.cur b.nodes) (All-take _ b.cur b.nodes v.blocks)
      ∙ ap (λ t. t * b.base_size) {y = b.cur} (omega (arith, length-take b.cur b.nodes, cur-le))

  pub position_split : b.position ≡ b.cur * b.base_size + b.position % b.base_size
  position_split = mod_of_bounds b.cur b.base_size b.position v.cur_low v.cur_high

-- Where `m_cur` may be kept by `addCapacity`.
abbrev pub CanGrow : ByteArray → Type 0
CanGrow b = (b.position ≡ b.size) ⊎ (b.size < b.capacity)

pub record Grown (n : ℕ) (b b' : ByteArray) : Type 0 where
  pub valid : IsValid b'
  pub room : b.size + n ≤ b'.capacity
  pub same_size : b'.size ≡ b.size
  pub same_position : b'.position ≡ b.position
  pub same_base : b'.base_size ≡ b.base_size
  pub same_endian : b'.endian ≡ b.endian
  pub same_contents : contents b' ≡ contents b

module _ (b : ByteArray) (v : IsValid b) (n : ℕ) where
  Grown-same : n ≤ get_capacity b → Grown n b b
  Grown-same h = record {
    valid = v;
    room = omega (arith, v.size-le);
    same_size = refl;
    same_position = refl;
    same_base = refl;
    same_endian = refl;
    same_contents = refl;
  }

  -- `num` more blocks.
  pub grow : ℕ → ByteArray
  grow num = record b {
    nodes = b.nodes ++ replicate num (new_node b.base_size b.junk);
    capacity = b.capacity + num * b.base_size;
    cur = if get_capacity b == 0 then length b.nodes else b.cur;
  }

  grow-cur : CanGrow b → (num : ℕ) → (grow num).cur ≡ b.cur
  unfolding grow
  grow-cur g num = elim (Bool-cases (get_capacity b == 0)) [
    | inl e ↦ rw e (full (ground (arith, v.size-le)))
    | inr e ↦ rw e
  ]
    where
      full : b.size ≡ b.capacity → length b.nodes ≡ b.cur
      full e = omega (arith, cur-le b v, at_end)
        where
          at_end : length b.nodes ≤ b.cur
          at_end = omega (
            arith,
            lt_of_mul-lt-mul_right b.base_size {m = length b.nodes} {n = suc b.cur}
                (omega (arith, at_size, e, v.cap, v.cur_high)),
          )
            where
              at_size : b.position ≡ b.size
              at_size = elim g [ inl p ↦ p | inr l ↦ absurd (omega arith) ]

  grow-blocks : (num : ℕ) → All (λ x. length x ≡ b.base_size) (grow num).nodes
  unfolding grow
  grow-blocks num =
      All-append _ b.nodes _ v.blocks (All-replicate _ num _ (length-replicate b.base_size b.junk))

  grow-IsValid : CanGrow b → (num : ℕ) → IsValid (grow num)
  grow-IsValid g num = record {
    base_pos = unfold grow in v.base_pos;
    some_node =
        unfold grow in
        omega
          (arith, v.some_node, length-append b.nodes (replicate num (new_node b.base_size b.junk)));
    blocks = unfold grow in grow-blocks num;
    cap =
        unfold grow in
        omega (
          arith,
          v.cap,
          add-mul (length b.nodes) num b.base_size,
          ap (λ (t : ℕ). t * b.base_size)
              (length-append b.nodes (replicate num (new_node b.base_size b.junk))),
          ap (λ (t : ℕ). (length b.nodes + t) * b.base_size)
              (length-replicate num (new_node b.base_size b.junk)),
        );
    position-le = unfold grow in v.position-le;
    size-le = unfold grow in omega (arith, v.size-le);
    cur_low = rw (grow-cur g num) (unfold grow in v.cur_low);
    cur_high = rw (grow-cur g num) (unfold grow in v.cur_high);
  }

  grow-contents : (num : ℕ) → contents (grow num) ≡ contents b
  unfolding grow
  grow-contents num =
      ap (take b.size) (concat-append b.nodes _)
      ∙ take-append_left b.size (concat b.nodes) _ (omega (arith, length-bytes b v, v.size-le))

  Grown-grow :
      CanGrow b → get_capacity b < n → Grown n b (grow (ceil_div (n - get_capacity b) b.base_size))
  Grown-grow g h = record {
    valid = grow-IsValid g _;
    room =
        unfold grow in
        omega (arith, v.size-le, ceil_div-ge (n - get_capacity b) b.base_size v.base_pos);
    same_size = unfold grow in refl;
    same_position = unfold grow in refl;
    same_base = unfold grow in refl;
    same_endian = unfold grow in refl;
    same_contents = grow-contents _;
  }

  -- `addCapacity` keeps the array well-formed and what it holds, and makes room for `n` more bytes.
  pub add_capacity_lem : CanGrow b → Grown n b (add_capacity n b)
  unfolding add_capacity
  add_capacity_lem g = elim (Bool-cases (n == 0)) [
    | inl e ↦ rw e (Grown-same (ground arith))
    | inr e ↦ elim (Bool-cases (leb n (get_capacity b))) [
      | inl f ↦ rw (e, f) (Grown-same (omega tests))
      | inr f ↦ rw (e, f) (unfold grow in Grown-grow g (omega tests))
    ]
  ]
