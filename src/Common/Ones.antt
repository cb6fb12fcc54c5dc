-- ===== src/Common/Ones.antt =====
-- How many ones the binary digits of a number have.
use sylar_net_server_framewo.Common.Bits.{
  half_block, odd_block, ones, ones-suc, bit_and-halves, bit_and_self,
}
use mathlib.Core.Logic.{◌⊎◌, inl, inr}
use mathlib.Core.Path.{◌≡◌, refl, ◌∙◌}
use Prim.Native.Nat.{ℕ, zero, suc, ◌+◌, ◌-◌, ◌*◌, ◌/◌, ◌%◌, ◌^◌, ◌<◌, bit_and}
use native.Mathlib.Nat.{pow-suc}
use native.Mathlib.Omega.{arith}

-- How many ones a number has, with enough digits to look at.
unfoldable pub ones_in : ℕ → ℕ → ℕ
ones_in zero a = 0
ones_in (suc k) a = a % 2 + ones_in k (a / 2)

pub ones_in-zero : (k : ℕ) → ones_in k 0 ≡ 0
unfolding ones_in
ones_in-zero zero = refl
ones_in-zero (suc k) = omega (arith, ones_in-zero k)

-- `a & (a - 1)` has one 1 less.
pub ones_in-drop : (k a : ℕ) → 0 < a → a < 2 ^ k → ones_in k a ≡ suc (ones_in k (bit_and a (a - 1)))
unfolding ones_in
ones_in-drop zero a h h' = absurd (omega arith)
ones_in-drop (suc k) a h h' = elim (parity a) [
  | inl even ↦
      let p : (a - 1) / 2 ≡ a / 2 - 1 = omega arith in
      let q : (a - 1) % 2 ≡ 1 = omega arith in
      let e : bit_and a (a - 1) ≡ bit_and (a / 2) (a / 2 - 1) * 2 =
        bit_and-halves a (a - 1) ∙ rw (p, q, even) (omega arith) in
      let ih = ones_in-drop k (a / 2) (omega arith) (omega (arith, pow-suc 2 k)) in
      rw (e, double-half (bit_and (a / 2) (a / 2 - 1)), double-even (bit_and (a / 2) (a / 2 - 1)))
        (omega (arith, ih))
  | inr odd ↦
      let p : (a - 1) / 2 ≡ a / 2 = omega arith in
      let q : (a - 1) % 2 ≡ 0 = omega arith in
      let e : bit_and a (a - 1) ≡ a / 2 * 2 =
        bit_and-halves a (a - 1) ∙ rw (p, q, odd, bit_and_self (a / 2)) (omega arith) in
      rw (e, double-half (a / 2), double-even (a / 2)) (omega arith)
]
  where
    parity : (a : ℕ) → (a % 2 ≡ 0) ⊎ (a % 2 ≡ 1)
    parity a = ground arith

    double-half : (n : ℕ) → n * 2 / 2 ≡ n
    double-half n = omega arith

    double-even : (n : ℕ) → n * 2 % 2 ≡ 0
    double-even n = omega arith

-- The digits of a number are those of its blocks.
pub ones_in-blocks :
    (j k q r : ℕ) → r < 2 ^ j → ones_in (j + k) (q * 2 ^ j + r) ≡ ones_in j r + ones_in k q
unfolding ones_in
ones_in-blocks zero k q r h =
    let e : q * 2 ^ 0 + r ≡ q = omega arith in
    let z : 0 + k ≡ k = omega arith in rw (e, z) (omega arith)
ones_in-blocks (suc j) k q r h =
    let s : suc j + k ≡ suc (j + k) = omega arith in
    rw (s, half_block j q r h, odd_block j q r)
      (omega (arith, ones_in-blocks j k q (r / 2) (omega (arith, pow-suc 2 j))))

pub ones_in-ones : (k : ℕ) → ones_in k (ones k) ≡ k
unfolding ones_in
ones_in-ones zero = refl
ones_in-ones (suc k) =
    let e : ones (suc k) / 2 ≡ ones k = omega (arith, ones-suc k) in
    let o : ones (suc k) % 2 ≡ 1 = omega (arith, ones-suc k) in
    rw (e, o) (omega (arith, ones_in-ones k))
