-- ===== src/Bytes/RoundTrip.antt =====
-- `write`, `setPosition` back, `read` (socket/bytearray.cpp): the bytes come back.
use sylar_net_server_framewo.Common.{
  subst, ℕ, ◌+◌, ◌≤◌, ◌<◌, ◌≡◌, ap, ◌∙◌, List, arith, length, take, drop, concat, length-take,
  take-drop-splice,
}
use sylar_net_server_framewo.Bytes.Chain.{Outcome, done, ◌>>=◌}
use sylar_net_server_framewo.Bytes.State.{ByteArray, write, read, set_position, contents, IsValid}
use sylar_net_server_framewo.Bytes.Write.{Written, write-Written}
use sylar_net_server_framewo.Bytes.Capacity.{CanGrow, length-bytes}
use sylar_net_server_framewo.Bytes.Read.{Moved, read-Readout, set_position-Moved}

-- Go back to `p` and read `n` bytes.
abbrev pub read_at : ℕ → ℕ → ByteArray → Outcome (List ℕ × ByteArray)
read_at p n b = set_position p b >>= read n

-- The states of a `setPosition` to `p` and a read of `n` bytes.
pub record Trip (p n : ℕ) (b : ByteArray) (out : List ℕ) (b₁ b₂ : ByteArray) : Type 0 where
  pub moved : set_position p b ≡ done b₁
  pub got : read n b₁ ≡ done (out, b₂)
  pub valid : IsValid b₂
  pub mid_endian : b₁.endian ≡ b.endian
  pub new_position : b₂.position ≡ p + n
  pub same_contents : contents b₂ ≡ contents b
  pub same_size : b₂.size ≡ b.size

same_contents_lem :
    (p : ℕ) (b b₁ : ByteArray) → p < b.size → Moved p b b₁ → contents b₁ ≡ contents b
same_contents_lem p b b₁ lt m =
    ap (λ t. take b₁.size (concat t)) m.same_nodes
    ∙ ap (λ t. take t (concat b.nodes)) {y = b.size} (omega (arith, m.new_size))

module _ (p n : ℕ) (b : ByteArray) (v : IsValid b) where
  pub read_at-Trip :
      p < b.size
      → p + n ≤ b.size
      → (b₁ : ByteArray) × (b₂ : ByteArray) × Trip p n b (take n (drop p (contents b))) b₁ b₂
  read_at-Trip lt le =
      let (b₁, e₁, m) = set_position-Moved p b v (omega (arith, v.size-le)) in
      let (out, b₂, e₂, r) =
        read-Readout n b₁ m.valid (omega (arith, m.new_position, m.same_capacity, v.size-le))
          (omega (arith, m.new_position, m.new_size)) in
      (
        b₁,
        b₂,
        record {
          moved = e₁;
          got =
              e₂
              ∙ ap (λ t. done (t, b₂))
                  (r.bytes
                    ∙ ap (λ t. take n (drop t (contents b₁))) m.new_position
                    ∙ ap (λ t. take n (drop p t)) (same_contents_lem p b b₁ lt m));
          valid = r.valid;
          mid_endian = m.same_endian;
          new_position = omega (arith, r.new_position, m.new_position);
          same_contents = r.same_contents ∙ same_contents_lem p b b₁ lt m;
          same_size = omega (arith, r.same_size, m.new_size);
        },
      )

  -- On a well-formed array, reading within the contents after `setPosition` returns that part of the
  -- contents, and moves the position behind it.
  pub read_at-contents :
      p < b.size
      → p + n ≤ b.size
      → (b' : ByteArray) × (read_at p n b ≡ done (take n (drop p (contents b)), b'))
        × IsValid b'
        × (b'.position ≡ p + n)
        × (contents b' ≡ contents b)
  read_at-contents lt le =
      let (b₁, b₂, t) = read_at-Trip lt le in
      (b₂, rw t.moved t.got, t.valid, t.new_position, t.same_contents)

module _ (buf : List ℕ) (b : ByteArray) (v : IsValid b) (g : CanGrow b) (h : 0 < length buf) where
  pub write-Trip :
      (b₁ b₂ b₃ : ByteArray) × (write buf b ≡ done b₁)
      × Written buf b b₁
      × Trip b.position (length buf) b₁ buf b₂ b₃
  write-Trip =
      let (b₁, e, w) = write-Written buf b v g in
      let (b₂, b₃, t) =
        read_at-Trip b.position (length buf) b₁ w.valid (omega (arith, w.new_size))
          (omega (arith, w.new_size)) in
      (b₁, b₂, b₃, e, w, subst (λ out. Trip b.position (length buf) b₁ out b₂ b₃) (back b₁ w) t)
    where
      back :
          (b₁ : ByteArray)
          → Written buf b b₁
          → take (length buf) (drop b.position (contents b₁)) ≡ buf
      back b₁ w =
          ap (λ t. take (length buf) (drop b.position t)) w.new_contents
          ∙ take-drop-splice b.position buf (contents b) (
              omega (
                arith,
                length-take b.size (concat b.nodes),
                length-bytes b v,
                v.position-le,
                v.size-le,
              ))

  -- On a well-formed array that is written at its end, or that is not full, the bytes of a non-empty
  -- `write` are read back from the position that they were written at.
  pub read-write :
      (b' : ByteArray) × ((write buf b >>= read_at b.position (length buf)) ≡ done (buf, b'))
      × IsValid b'
      × (b'.position ≡ b.position + length buf)
  read-write =
      let (b₁, b₂, b₃, e, w, t) = write-Trip in (b₃, rw (e, t.moved) t.got, t.valid, t.new_position)
