-- ===== src/Bytes/State.antt =====
-- The fields of `ByteArray` and the methods that move over its blocks
-- (socket/bytearray.h and socket/bytearray.cpp).
use sylar_net_server_framewo.Common.{
  ◌^◌, ℕ, suc, ◌+◌, ◌-◌, ◌*◌, ◌/◌, ◌%◌, ◌≤◌, ◌<◌, ◌≡◌, Bool, true, false, List, [], ◌∷◌, ◌++◌, leb,
  ltb, ◌==◌, if◌then◌else◌, length, take, drop, replicate, All, concat,
}
use sylar_net_server_framewo.Bytes.Chain.{
  Outcome, done, out_of_range, fault, ◌>>=◌, Block, write_loop, read_loop,
}

-- `SYLAR_LITTLE_ENDIAN` and `SYLAR_BIG_ENDIAN`.
pub data Endian : Type 0 where
  little big : Endian

-- `nodes` is the chain from `m_root`; `cur` counts the steps from there to `m_cur`, so that the
-- number of nodes stands for the null pointer. `junk` is what a byte of `new char[s]` holds before
-- it is written.
pub record ByteArray : Type 0 where
  pub base_size : ℕ
  pub position : ℕ
  pub capacity : ℕ
  pub size : ℕ
  pub endian : Endian
  pub nodes : List Block
  pub cur : ℕ
  pub junk : ℕ

-- `new Node(m_baseSize)`
abbrev pub new_node : ℕ → ℕ → Block
new_node base_size junk = replicate base_size junk

unfoldable pub byte_array : ℕ → ℕ → ByteArray
byte_array base_size junk = record {
  base_size = base_size;
  position = 0;
  capacity = base_size;
  size = 0;
  endian = big;
  nodes = new_node base_size junk ∷ [];
  cur = 0;
  junk = junk;
}

abbrev pub get_read_size : ByteArray → ℕ
get_read_size b = b.size - b.position

abbrev pub get_capacity : ByteArray → ℕ
get_capacity b = b.capacity - b.size

-- `ceil(1.0 * size / m_baseSize)`
abbrev pub ceil_div : ℕ → ℕ → ℕ
ceil_div n d = (n + d - 1) / d

unfoldable pub add_capacity : ℕ → ByteArray → ByteArray
add_capacity n b =
    let cap = get_capacity b in
    let num = ceil_div (n - cap) b.base_size in
    if n == 0 then b else if leb n cap then b else record b {
      nodes = b.nodes ++ replicate num (new_node b.base_size b.junk);
      capacity = b.capacity + num * b.base_size;
      cur = if cap == 0 then length b.nodes else b.cur;
    }

abbrev pub advance : ByteArray → List Block → ℕ → ℕ → ByteArray
advance b chain moved n =
    let position = b.position + n in
    record b {
      nodes = take b.cur b.nodes ++ chain;
      cur = b.cur + moved;
      position = position;
      size = if ltb b.size position then position else b.size;
    }

-- The body of `write` behind `addCapacity`.
unfoldable pub write_at_cur : List ℕ → ByteArray → Outcome ByteArray
write_at_cur buf b = write_loop (drop b.cur b.nodes) (b.position % b.base_size) buf >>= λ r.
    done (advance b r.0 r.1 (length buf))

unfoldable pub write : List ℕ → ByteArray → Outcome ByteArray
write buf b = if length buf == 0 then done b else write_at_cur buf (add_capacity (length buf) b)

-- `m_cur->size` is read before the loop, so a null `m_cur` is a fault even for no byte.
abbrev pub at_cur {ℓ} : {A : Type ℓ} → ByteArray → (List Block → Outcome A) → Outcome A
at_cur b f = elim (drop b.cur b.nodes) [ [] ↦ fault | block ∷ next ↦ f (block ∷ next) ]

unfoldable pub read : ℕ → ByteArray → Outcome (List ℕ × ByteArray)
read n b =
    if ltb (get_read_size b) n
    then out_of_range
    else at_cur b λ chain. read_loop chain (b.position % b.base_size) n >>= λ r.
        done (r.0, record b { cur = b.cur + r.1; position = b.position + n })

-- `read(buf, size, st) const` starts at `m_cur` whatever `st` is.
unfoldable pub read_from : ℕ → ℕ → ByteArray → Outcome (List ℕ)
read_from n st b =
    if ltb ((b.size + 2 ^ 64 - st) % 2 ^ 64) n
    then out_of_range
    else at_cur b λ chain. read_loop chain (st % b.base_size) n >>= λ r. done r.0

-- The loop of `setPosition`: `while(v >= m_cur->size)`, from the block `i` on.
unfoldable pub seek : List Block → ℕ → ℕ → Outcome ℕ
seek [] i v = fault
seek (block ∷ next) i v =
    let rest = seek next (suc i) (v - length block) in if leb (length block) v then rest else done i

unfoldable pub set_position : ℕ → ByteArray → Outcome ByteArray
unfolding seek
set_position v b =
    if ltb b.capacity v
    then out_of_range
    else (seek b.nodes 0 v >>= λ i.
        done (record b { position = v; size = if ltb b.size v then v else b.size; cur = i }))

unfoldable pub clear : ByteArray → ByteArray
clear b = record b {
  position = 0;
  size = 0;
  capacity = b.base_size;
  nodes = take 1 b.nodes;
  cur = 0;
}

unfoldable pub to_string : ByteArray → Outcome (List ℕ)
unfolding read_from
to_string b = if get_read_size b == 0 then done [] else read_from (get_read_size b) b.position b

unfoldable pub set_endian : Bool → ByteArray → ByteArray
set_endian flag b = record b { endian = if flag then little else big }

unfoldable pub is_little_endian : ByteArray → Bool
is_little_endian b = elim b.endian [ little ↦ true | big ↦ false ]

-- What a client sees: the bytes from the front to `m_size`.
abbrev pub contents : ByteArray → List ℕ
contents b = take b.size (concat b.nodes)

-- The representation invariant.
pub record IsValid (b : ByteArray) : Type 0 where
  pub base_pos : 0 < b.base_size
  pub some_node : 0 < length b.nodes
  pub blocks : All (λ x. length x ≡ b.base_size) b.nodes
  pub cap : b.capacity ≡ length b.nodes * b.base_size
  pub position-le : b.position ≤ b.size
  pub size-le : b.size ≤ b.capacity
  pub cur_low : b.cur * b.base_size ≤ b.position
  pub cur_high : b.position < b.cur * b.base_size + b.base_size
