-- ===== src/Bytes/Chain.antt =====
-- The loops of `ByteArray::write` and `ByteArray::read` over the linked list of blocks
-- (socket/bytearray.cpp). A chain is the list of blocks from `m_cur` on; its end is the null pointer.
use sylar_net_server_framewo.Common.{
  ◌⊎◌, ℕ, zero, suc, ◌+◌, ◌-◌, ◌*◌, ◌≤◌, ◌<◌, ◌≡◌, refl, sym, ap, ◌∙◌, inl, inr, List, [], ◌∷◌,
  ◌++◌, arith, leb, ◌==◌, if◌then◌else◌, Bool-cases, tests, length, take, drop, All, concat,
  overwrite, length-append, length-drop, length-overwrite, overwrite-nil, overwrite-append_left,
  overwrite-append_across, take-append_left, take-append_right, drop-append_left, take-all,
}

-- What a method call ends in: normally, with the exception `std::out_of_range`, or in undefined
-- behaviour (a null pointer is dereferenced).
pub data Outcome {ℓ} (A : Type ℓ) : Type ℓ where
  done : A → Outcome A
  out_of_range : Outcome A
  fault : Outcome A

infixl 5 ◌>>=◌
abbrev pub ◌>>=◌ {ℓ κ} : {A : Type ℓ} {B : Type κ} → Outcome A → (A → Outcome B) → Outcome B
done a >>= f = f a
out_of_range >>= f = out_of_range
fault >>= f = fault

-- A chain of calls that ends normally did so at each link.
pub >>=-eq-done {ℓ κ} :
    {A : Type ℓ} {B : Type κ} (m : Outcome A) (f : A → Outcome B) {b : B}
    → (m >>= f) ≡ done b
    → (a : A) × (m ≡ done a) × (f a ≡ done b)
>>=-eq-done (done a) f h = (a, refl, h)
>>=-eq-done out_of_range f h = cc
>>=-eq-done fault f h = cc

-- The data of one `ByteArray::Node`; its `size` is the length.
abbrev pub Block : Type 0
Block = List ℕ

-- The loop of `write`: the bytes still to copy, at offset `npos` of the first block. It returns the
-- blocks and by how many of them `m_cur` has moved on.
unfoldable pub write_loop : List Block → ℕ → List ℕ → Outcome (List Block × ℕ)
write_loop chain npos [] = done (chain, 0)
write_loop [] npos (b ∷ bs) = fault
write_loop (block ∷ next) npos (b ∷ bs) =
    let buf = b ∷ bs in
    let ncap = length block - npos in
    let rest = write_loop next 0 (drop ncap buf) >>= λ r.
    done (overwrite npos (take ncap buf) block ∷ r.0, suc r.1) in
    if leb (length buf) ncap
    then done (overwrite npos buf block ∷ next, if length buf == ncap then 1 else 0)
    else rest

-- The loop of `read`: the bytes copied out, and by how many blocks `m_cur` has moved on.
unfoldable pub read_loop : List Block → ℕ → ℕ → Outcome (List ℕ × ℕ)
read_loop chain npos zero = done ([], 0)
read_loop [] npos (suc n) = fault
read_loop (block ∷ next) npos (suc n) =
    let size = suc n in
    let ncap = length block - npos in
    let rest =
      read_loop next 0 (size - ncap) >>= λ r. done (take ncap (drop npos block) ++ r.0, suc r.1) in
    if leb size ncap
    then done (take size (drop npos block), if size == ncap then 1 else 0)
    else rest

-- What the write loop does to a chain of blocks of `base` bytes.
pub record Wrote (base : ℕ) (chain : List Block) (npos : ℕ) (bs : List ℕ) (chain' : List Block)
    (moved : ℕ) : Type 0 where
  pub bytes : concat chain' ≡ overwrite npos bs (concat chain)
  pub blocks : All (λ x. length x ≡ base) chain'
  pub count : length chain' ≡ length chain
  pub low : moved * base ≤ npos + length bs
  pub high : npos + length bs < moved * base + base

module _ (base : ℕ) (block : Block) (next : List Block) (npos : ℕ) (bs : List ℕ)
    (hb : length block ≡ base) (hn : All (λ x. length x ≡ base) next) (lt : npos < base) where
  -- The last round: the block has room for all that is left.
  Wrote-fits :
      npos + length bs ≤ base
      → Wrote base
          (block ∷ next)
          npos
          bs
          (overwrite npos bs block ∷ next)
          (if length bs == length block - npos then 1 else 0)
  Wrote-fits room = record {
    bytes = sym (overwrite-append_left npos bs block (concat next) (omega arith));
    blocks = (length-overwrite npos bs block ∙ hb, hn);
    count = refl;
    low = ground arith;
    high = ground arith;
  }

  -- Another round: the block is filled up, and the rest goes to the blocks behind it.
  Wrote-spills :
      (n : ℕ)
      → npos + n ≡ base
      → n ≤ length bs
      → (chain' : List Block) (moved : ℕ) → Wrote base next 0 (drop n bs) chain' moved
      → Wrote base (block ∷ next) npos bs (overwrite npos (take n bs) block ∷ chain') (suc moved)
  Wrote-spills n e le chain' moved w = record {
    bytes =
        ap (◌++◌ (overwrite npos (take n bs) block)) w.bytes
        ∙ sym (overwrite-append_across npos n bs block (concat next) (omega arith) le);
    blocks = (length-overwrite npos (take n bs) block ∙ hb, w.blocks);
    count = omega (arith, w.count);
    low = omega (arith, w.low, length-drop n bs);
    high = omega (arith, w.high, length-drop n bs);
  }

module _ (base : ℕ) where
  -- With room in the chain the loop ends, and it copies the bytes to where they belong.
  pub write_loop_lem :
      (chain : List Block) (npos : ℕ) (bs : List ℕ)
      → All (λ x. length x ≡ base) chain
      → npos < base
      → npos + length bs ≤ length (concat chain)
      → (chain' : List Block) × (moved : ℕ) × (write_loop chain npos bs ≡ done (chain', moved))
        × Wrote base chain npos bs chain' moved
  unfolding write_loop
  write_loop_lem chain npos [] h lt room = (
    chain,
    0,
    refl,
    record {
      bytes = sym (overwrite-nil npos (concat chain));
      blocks = h;
      count = refl;
      low = omega arith;
      high = omega arith;
    },
  )
  write_loop_lem [] npos (b ∷ bs) h lt room = absurd (omega arith)
  write_loop_lem (block ∷ next) npos (b ∷ bs) h lt room =
      let n = length block - npos in
      elim (Bool-cases (leb (length (b ∷ bs)) n)) [
        | inl fits ↦ (
          overwrite npos (b ∷ bs) block ∷ next,
          if length (b ∷ bs) == n then 1 else 0,
          rw fits,
          Wrote-fits base block next npos (b ∷ bs) h.0 h.1 lt (omega tests),
        )
        | inr spills ↦
            let (chain', moved, e, w) =
              write_loop_lem next 0 (drop n (b ∷ bs)) h.1 (omega arith)
                (omega (tests, length-drop n (b ∷ bs), length-append block (concat next))) in
            (
              overwrite npos (take n (b ∷ bs)) block ∷ chain',
              suc moved,
              rw (spills, e),
              Wrote-spills base block next npos (b ∷ bs) h.0 h.1 lt n (omega arith) (omega tests)
                  chain' moved w,
            )
      ]

-- What the read loop copies out, and where it leaves `m_cur`.
pub record Took (base : ℕ) (chain : List Block) (npos n : ℕ) (out : List ℕ) (moved : ℕ)
    : Type 0 where
  pub bytes : out ≡ take n (drop npos (concat chain))
  pub low : moved * base ≤ npos + n
  pub high : npos + n < moved * base + base

module _ (base : ℕ) (block : Block) (next : List Block) (npos n : ℕ) (hb : length block ≡ base)
    (hn : All (λ x. length x ≡ base) next) (lt : npos < base) where
  Took-fits :
      npos + n ≤ base
      → Took base
          (block ∷ next)
          npos
          n
          (take n (drop npos block))
          (if n == length block - npos then 1 else 0)
  Took-fits room = record {
    bytes =
        sym (
          take-append_left n (drop npos block) (concat next)
            (omega (arith, length-drop npos block)))
        ∙ ap (take n) (sym (drop-append_left npos block (concat next) (omega arith)));
    low = ground arith;
    high = ground arith;
  }

  Took-spills :
      (m k : ℕ)
      → npos + m ≡ base
      → m + k ≡ n
      → (out : List ℕ) (moved : ℕ) → Took base next 0 k out moved
      → Took base (block ∷ next) npos n (take m (drop npos block) ++ out) (suc moved)
  Took-spills m k e f out moved w = record {
    bytes =
        ap (λ t. take m (drop npos block) ++ t) w.bytes
        ∙ ap (λ t. t ++ take k (concat next)) whole
        ∙ sym (
            take-append_right k n (drop npos block) (concat next)
              (omega (arith, length-drop npos block)))
        ∙ ap (take n) (sym (drop-append_left npos block (concat next) (omega arith)));
    low = omega (arith, w.low);
    high = omega (arith, w.high);
  }
    where
      whole : take m (drop npos block) ≡ drop npos block
      whole = take-all m (drop npos block) (omega (arith, length-drop npos block))

module _ (base : ℕ) where
  -- As long as there are bytes in the chain the loop ends, with the bytes asked for.
  pub read_loop_lem :
      (chain : List Block) (npos n : ℕ)
      → All (λ x. length x ≡ base) chain
      → npos < base
      → npos + n ≤ length (concat chain)
      → (out : List ℕ) × (moved : ℕ) × (read_loop chain npos n ≡ done (out, moved))
        × Took base chain npos n out moved
  unfolding read_loop
  read_loop_lem chain npos zero h lt room =
      ([], 0, refl, record { bytes = refl; low = omega arith; high = omega arith })
  read_loop_lem [] npos (suc n) h lt room = absurd (omega arith)
  read_loop_lem (block ∷ next) npos (suc n) h lt room =
      let m = length block - npos in
      elim (Bool-cases (leb (suc n) m)) [
        | inl fits ↦ (
          take (suc n) (drop npos block),
          if suc n == m then 1 else 0,
          rw fits,
          Took-fits base block next npos (suc n) h.0 h.1 lt (omega tests),
        )
        | inr spills ↦
            let (out, moved, e, w) =
              read_loop_lem next 0 (suc n - m) h.1 (omega arith)
                (omega (tests, length-append block (concat next))) in
            (
              take m (drop npos block) ++ out,
              suc moved,
              rw (spills, e),
              Took-spills base block next npos (suc n) h.0 h.1 lt m (suc n - m) (omega arith)
                  (omega tests) out moved w,
            )
      ]

-- The loop of `write` never throws.
pub write_loop-cases :
    (chain : List Block) (npos : ℕ) (bs : List ℕ)
    → (write_loop chain npos bs ≡ fault)
      ⊎ ((r : List Block × ℕ) × (write_loop chain npos bs ≡ done r))
unfolding write_loop
write_loop-cases chain npos [] = inr ((chain, 0), refl)
write_loop-cases [] npos (b ∷ bs) = inl refl
write_loop-cases (block ∷ next) npos (b ∷ bs) =
    let buf = b ∷ bs in
    let n = length block - npos in
    elim (Bool-cases (leb (length buf) n)) [
      | inl fits ↦
          inr ((overwrite npos buf block ∷ next, if length buf == n then 1 else 0), rw fits)
      | inr spills ↦ elim (write_loop-cases next 0 (drop n buf)) [
        | inl e ↦ inl (rw (spills, e))
        | inr (r, e) ↦ inr ((overwrite npos (take n buf) block ∷ r.0, suc r.1), rw (spills, e))
      ]
    ]
