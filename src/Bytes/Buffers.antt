-- ===== src/Bytes/Buffers.antt =====
-- Scatter and gather: `getReadBuffers` and `getWriteBuffers` (socket/bytearray.cpp), for `readv` and
-- `writev` on the blocks themselves.
use sylar_net_server_framewo.Common.{
  ℕ, zero, suc, ◌+◌, ◌-◌, ◌/◌, ◌%◌, ◌≤◌, ◌<◌, ◌≡◌, refl, sym, ap, ◌∙◌, inl, inr, List, [], ◌∷◌,
  ◌++◌, false, arith, Bool-cases, leb, ltb, ◌==◌, if◌then◌else◌, length, take, drop, concat, min,
}
use mathlib.Core.List.{append-nil}
use sylar_net_server_framewo.Bytes.Chain.{>>=-eq-done}
use sylar_net_server_framewo.Bytes.Chain.{Outcome, done, fault, ◌>>=◌, Block, read_loop}
use sylar_net_server_framewo.Bytes.State.{ByteArray, get_read_size, add_capacity, contents, IsValid}
use sylar_net_server_framewo.Bytes.Capacity.{CanGrow, Grown, add_capacity_lem}
use sylar_net_server_framewo.Bytes.Read.{cut-contents, read_chain}

-- `struct iovec`, the pointer as a block and an offset in it.
pub record Iovec : Type 0 where
  pub block : ℕ
  pub offset : ℕ
  pub len : ℕ

-- The loop that the three methods share, from the block `i` on.
unfoldable pub buffers_loop : List Block → ℕ → ℕ → ℕ → Outcome (List Iovec)
buffers_loop chain i npos zero = done []
buffers_loop [] i npos (suc n) = fault
buffers_loop (block ∷ next) i npos (suc n) =
    let len = suc n in
    let ncap = length block - npos in
    let rest = buffers_loop next (suc i) 0 (len - ncap) >>= λ vs.
    done (record { block = i; offset = npos; len = ncap } ∷ vs) in
    if leb len ncap then done (record { block = i; offset = npos; len = len } ∷ []) else rest

unfoldable pub get_read_buffers : ℕ → ByteArray → Outcome (List Iovec × ℕ)
unfolding buffers_loop
get_read_buffers len b =
    let n = if ltb (get_read_size b) len then get_read_size b else len in
    if n == 0
    then done ([], 0)
    else (buffers_loop (drop b.cur b.nodes) b.cur (b.position % b.base_size) n >>= λ vs.
        done (vs, n))

-- The overload with a position walks from `m_root`; it still cuts `len` at what is left behind
-- `m_position`.
unfoldable pub get_read_buffers_at : ℕ → ℕ → ByteArray → Outcome (List Iovec × ℕ)
unfolding buffers_loop
get_read_buffers_at len position b =
    let n = if ltb (get_read_size b) len then get_read_size b else len in
    let count = position / b.base_size in
    if n == 0
    then done ([], 0)
    else (buffers_loop (drop count b.nodes) count (position % b.base_size) n >>= λ vs. done (vs, n))

unfoldable pub get_write_buffers : ℕ → ByteArray → Outcome (List Iovec × ByteArray)
unfolding buffers_loop
get_write_buffers len b =
    if len == 0
    then done ([], b)
    else let b' = add_capacity len b in
      buffers_loop (drop b'.cur b'.nodes) b'.cur (b'.position % b'.base_size) len >>= λ vs.
      done (vs, b')

-- What stands in the memory that the vectors point to.
abbrev pub block_at : List Block → ℕ → Block
block_at [] i = []
block_at (x ∷ xs) zero = x
block_at (x ∷ xs) (suc i) = block_at xs i

abbrev pub gather : List Block → List Iovec → List ℕ
gather nodes [] = []
gather nodes (v ∷ vs) = take v.len (drop v.offset (block_at nodes v.block)) ++ gather nodes vs

block_at-drop :
    (nodes : List Block) (i : ℕ) (block : Block) (next : List Block)
    → drop i nodes ≡ block ∷ next
    → (block_at nodes i ≡ block) × (drop (suc i) nodes ≡ next)
block_at-drop [] zero block next e = cc
block_at-drop [] (suc i) block next e = cc
block_at-drop (x ∷ xs) zero block next e = ground (arith, e)
block_at-drop (x ∷ xs) (suc i) block next e = block_at-drop xs i block next e

done-fst {ℓ κ} : {A : Type ℓ} {B : Type κ} {p q : A × B} → done p ≡ done q → p.0 ≡ q.0
done-fst h = cc

-- The vectors cover what the loop of `read` would copy.
gather-buffers_loop :
    (nodes chain : List Block) (i npos n : ℕ)
    → drop i nodes ≡ chain
    → {out : List ℕ} {moved : ℕ} → read_loop chain npos n ≡ done (out, moved)
    → (vs : List Iovec) × (buffers_loop chain i npos n ≡ done vs) × (gather nodes vs ≡ out)
unfolding buffers_loop read_loop
gather-buffers_loop nodes chain i npos zero e r = ([], refl, cc)
gather-buffers_loop nodes [] i npos (suc n) e r = cc
gather-buffers_loop nodes (block ∷ next) i npos (suc n) e r =
    let (here, there) = block_at-drop nodes i block next e in
    let ncap = length block - npos in
    elim (Bool-cases (leb (suc n) ncap)) [
      | inl fits ↦ (
        record { block = i; offset = npos; len = suc n } ∷ [],
        rw fits,
        append-nil (take (suc n) (drop npos (block_at nodes i)))
            ∙ ap (λ t. take (suc n) (drop npos t)) here
            ∙ done-fst (rw fits at r),
      )
      | inr spills ↦
          let ((out', moved'), f, g) =
            >>=-eq-done (read_loop next 0 (suc n - ncap))
              (λ t. done (take ncap (drop npos block) ++ t.0, suc t.1)) (rw spills at r) in
          let (vs, h, k) = gather-buffers_loop nodes next (suc i) 0 (suc n - ncap) there f in
          (
            record { block = i; offset = npos; len = ncap } ∷ vs,
            rw (spills, h),
            ap (λ t. take ncap (drop npos t) ++ gather nodes vs) here
                ∙ ap (λ t. take ncap (drop npos block) ++ t) k
                ∙ done-fst g,
          )
    ]

-- Any part of the blocks behind the position, as vectors.
buffers-concat :
    (n : ℕ) (b : ByteArray)
    → IsValid b
    → b.position + n ≤ b.capacity
    → (vs : List Iovec) × (buffers_loop (drop b.cur b.nodes) b.cur (b.position % b.base_size) n
        ≡ done vs)
      × (gather b.nodes vs ≡ take n (drop b.position (concat b.nodes)))
buffers-concat n b v room =
    let (out, moved, e, f, t) = read_chain n b v room in
    let (vs, g, k) =
      gather-buffers_loop b.nodes (drop b.cur b.nodes) b.cur (b.position % b.base_size) n refl e in
    (vs, g, k ∙ f)

min_if : (a b : ℕ) → (if ltb b a then b else a) ≡ min a b
min_if a b = ground arith

-- The vectors of `getReadBuffers` point to the contents from the position on: to as many bytes as
-- asked for, or to all that is left if that is less; the method returns their number.
pub get_read_buffers-contents :
    (len : ℕ) (b : ByteArray)
    → IsValid b
    → (vs : List Iovec) × (get_read_buffers len b ≡ done (vs, min len (get_read_size b)))
      × (gather b.nodes vs ≡ take (min len (get_read_size b)) (drop b.position (contents b)))
unfolding get_read_buffers
get_read_buffers-contents len b v =
    let n = min len (get_read_size b) in
    elim (Bool-cases (n == 0)) [
      | inl e ↦
          let z : n ≡ 0 = ground arith in
          (
            [],
            rw (min_if len (get_read_size b), e) (ap (λ t. done ([], t)) (sym z)),
            ap (λ t. take t (drop b.position (contents b))) (sym z),
          )
      | inr e ↦
          let (vs, f, g) = buffers-concat n b v (omega (arith, v.position-le, v.size-le)) in
          (vs, rw (min_if len (get_read_size b), e, f) refl, g ∙ cut-contents n b v (omega arith))
    ]

-- `getWriteBuffers` makes room and points to the `len` bytes behind the position, on a well-formed
-- array that is written at its end, or that is not full; it changes nothing of the contents.
pub get_write_buffers-room :
    (len : ℕ) (b : ByteArray)
    → IsValid b
    → CanGrow b
    → 0 < len
    → (vs : List Iovec) × (b' : ByteArray) × (get_write_buffers len b ≡ done (vs, b'))
      × Grown len b b'
      × (gather b'.nodes vs ≡ take len (drop b'.position (concat b'.nodes)))
unfolding get_write_buffers
get_write_buffers-room len b v g h =
    let b' = add_capacity len b in
    let some : (len == 0) ≡ false = ground arith in
    let w : Grown len b b' = add_capacity_lem b v len g in
    let (vs, f, k) =
      buffers-concat len b' w.valid
        (omega (arith, w.room, w.same_size, w.same_position, v.position-le)) in
    (vs, b', rw (some, f) refl, w, k)
