-- ===== src/Common/Bits.antt =====
-- `&` and `|` of natural numbers: one equation for the lowest digit, and what follows from it for
-- masks of low bits, for bytes and for the count of ones.
use Prim.Native.Nat.{
  ℕ, zero, suc, ◌+◌, ◌-◌, ◌*◌, ◌/◌, ◌%◌, ◌^◌, ◌≤◌, ◌<◌, min, max, bit_and, bit_or, digits, bitwise,
  bit_and-bitwise, bit_or-bitwise,
}
use mathlib.Core.Path.{◌≡◌, refl, ap, ◌∙◌, sym}
use native.Mathlib.Nat.{pow-suc, one-le-pow, div-add-mod', mod-lt}
use native.Mathlib.Omega.{arith}

module _ (stop : ℕ → ℕ) (digit : ℕ → ℕ → ℕ) where
  -- How much fuel there is makes no difference while it is enough.
  fuel_free : (b a m n : ℕ) → a ≤ n → a ≤ m → digits stop digit m a b ≡ digits stop digit n a b
  fuel_free b zero zero zero g h = refl
  fuel_free b zero zero (suc n) g h = refl
  fuel_free b zero (suc m) zero g h = refl
  fuel_free b zero (suc m) (suc n) g h = refl
  fuel_free b (suc a) zero n g h = absurd (omega arith)
  fuel_free b (suc a) (suc m) zero g h = absurd (omega arith)
  fuel_free b (suc a) (suc m) (suc n) g h =
      ap (λ t. t * 2 + digit (suc a % 2) (b % 2))
        (fuel_free (b / 2) (suc a / 2) m n (omega arith) (omega arith))

  lowest_digit :
      (a b : ℕ)
      → bitwise stop digit (suc a) b
        ≡ bitwise stop digit (suc a / 2) (b / 2) * 2 + digit (suc a % 2) (b % 2)
  lowest_digit a b =
      ap (λ t. t * 2 + digit (suc a % 2) (b % 2))
        (fuel_free (b / 2) (suc a / 2) a (suc a / 2) (omega arith) (omega arith))

pub bit_or-halves : (a b : ℕ) → bit_or a b ≡ bit_or (a / 2) (b / 2) * 2 + max (a % 2) (b % 2)
bit_or-halves zero b = simp bit_or-bitwise (omega arith)
bit_or-halves (suc a) b = simp bit_or-bitwise (lowest_digit (λ y. y) max a b)

pub bit_and-halves : (a b : ℕ) → bit_and a b ≡ bit_and (a / 2) (b / 2) * 2 + min (a % 2) (b % 2)
bit_and-halves zero b = simp bit_and-bitwise (omega arith)
bit_and-halves (suc a) b = simp bit_and-bitwise (lowest_digit (λ y. zero) min a b)

pub bit_or-zero : (b : ℕ) → bit_or 0 b ≡ b
bit_or-zero b = simp bit_or-bitwise refl

pub bit_and-zero : (b : ℕ) → bit_and 0 b ≡ 0
bit_and-zero b = simp bit_and-bitwise refl

-- `m` ones.
abbrev pub ones : ℕ → ℕ
ones k = 2 ^ k - 1

pub ones-suc : (k : ℕ) → ones (suc k) ≡ 2 * ones k + 1
ones-suc k = omega (arith, pow-suc 2 k, one-le-pow k 2)

-- A number whose low `k` digits are `r`, halved.
pub half_block : (k q r : ℕ) → r < 2 ^ suc k → (q * 2 ^ suc k + r) / 2 ≡ q * 2 ^ k + r / 2
half_block k q r h =
    let double : q * 2 ^ suc k ≡ 2 * (q * 2 ^ k) =
      omega (arith, ap (λ (t : ℕ). q * t) (pow-suc 2 k)) in
    omega (arith, double)

pub odd_block : (k q r : ℕ) → (q * 2 ^ suc k + r) % 2 ≡ r % 2
odd_block k q r =
    let double : q * 2 ^ suc k ≡ 2 * (q * 2 ^ k) =
      omega (arith, ap (λ (t : ℕ). q * t) (pow-suc 2 k)) in
    omega (arith, double)

-- The mask stands first: with it the recursion ends.
and_block : (k q r : ℕ) → r < 2 ^ k → bit_and (ones k) (q * 2 ^ k + r) ≡ r
and_block zero q r h = bit_and-zero (q * 2 ^ 0 + r) ∙ omega arith
and_block (suc k) q r h =
    let e : ones (suc k) / 2 ≡ ones k = omega (arith, ones-suc k) in
    let o : ones (suc k) % 2 ≡ 1 = omega (arith, ones-suc k) in
    bit_and-halves (ones (suc k)) (q * 2 ^ suc k + r)
    ∙ rw
        (
          e,
          o,
          half_block k q r h,
          odd_block k q r,
          and_block k q (r / 2) (omega (arith, pow-suc 2 k)),
        )
        (omega arith)

or_block : (k q r : ℕ) → r < 2 ^ k → bit_or (ones k) (q * 2 ^ k + r) ≡ q * 2 ^ k + ones k
or_block zero q r h = bit_or-zero (q * 2 ^ 0 + r) ∙ omega arith
or_block (suc k) q r h =
    let e : ones (suc k) / 2 ≡ ones k = omega (arith, ones-suc k) in
    let o : ones (suc k) % 2 ≡ 1 = omega (arith, ones-suc k) in
    let double : q * 2 ^ suc k ≡ 2 * (q * 2 ^ k) =
      omega (arith, ap (λ (t : ℕ). q * t) (pow-suc 2 k)) in
    bit_or-halves (ones (suc k)) (q * 2 ^ suc k + r)
    ∙ rw
        (
          e,
          o,
          half_block k q r h,
          odd_block k q r,
          or_block k q (r / 2) (omega (arith, pow-suc 2 k)),
        )
        (omega (arith, double, ones-suc k))

-- `&` with a mask of `k` ones is the remainder by `2 ^ k`, and `|` with it sets that part to ones.
pub bit_and-ones : (k a : ℕ) → bit_and (ones k) a ≡ a % 2 ^ k
bit_and-ones k a =
    let p : 0 < 2 ^ k = one-le-pow k 2 (omega arith) in
    ap (bit_and (ones k)) (sym (div-add-mod' a (2 ^ k)))
    ∙ and_block k (a / 2 ^ k) (a % 2 ^ k) (mod-lt a p)

pub bit_or-ones : (k a : ℕ) → bit_or (ones k) a ≡ a / 2 ^ k * 2 ^ k + ones k
bit_or-ones k a =
    let p : 0 < 2 ^ k = one-le-pow k 2 (omega arith) in
    ap (bit_or (ones k)) (sym (div-add-mod' a (2 ^ k)))
    ∙ or_block k (a / 2 ^ k) (a % 2 ^ k) (mod-lt a p)

-- An operation that works digit by digit works block by block.
module _ (op digit : ℕ → ℕ → ℕ)
    (halves : (a b : ℕ) → op a b ≡ op (a / 2) (b / 2) * 2 + digit (a % 2) (b % 2))
    (zeros : op 0 0 ≡ 0) (small : (a b : ℕ) → a < 2 → b < 2 → digit a b < 2) where
  pub blocks :
      (k q r q' r' : ℕ)
      → r < 2 ^ k
      → r' < 2 ^ k
      → op (q * 2 ^ k + r) (q' * 2 ^ k + r') ≡ op q q' * 2 ^ k + op r r'
  blocks zero q r q' r' h h' =
      let e : r ≡ 0 = omega arith in
      let e' : r' ≡ 0 = omega arith in
      let f : q * 2 ^ 0 + r ≡ q = omega arith in
      let f' : q' * 2 ^ 0 + r' ≡ q' = omega arith in rw (f, f', e, e', zeros) (omega arith)
  blocks (suc k) q r q' r' h h' =
      let ih =
        blocks k q (r / 2) q' (r' / 2) (omega (arith, pow-suc 2 k)) (omega (arith, pow-suc 2 k)) in
      let double : op q q' * 2 ^ suc k ≡ 2 * (op q q' * 2 ^ k) =
        omega (arith, ap (λ (t : ℕ). op q q' * t) (pow-suc 2 k)) in
      halves (q * 2 ^ suc k + r) (q' * 2 ^ suc k + r')
      ∙ rw (half_block k q r h, half_block k q' r' h', odd_block k q r, odd_block k q' r', ih)
          (omega (arith, double, halves r r'))

  pub block-lt : (k a b : ℕ) → a < 2 ^ k → b < 2 ^ k → op a b < 2 ^ k
  block-lt zero a b h h' =
      let e : a ≡ 0 = omega arith in let e' : b ≡ 0 = omega arith in rw (e, e', zeros) (omega arith)
  block-lt (suc k) a b h h' =
      let ih =
        block-lt k (a / 2) (b / 2) (omega (arith, pow-suc 2 k)) (omega (arith, pow-suc 2 k)) in
      let d = small (a % 2) (b % 2) (omega arith) (omega arith) in
      omega (arith, halves a b, ih, d, pow-suc 2 k)

module _ (op digit : ℕ → ℕ → ℕ)
    (halves : (a b : ℕ) → op a b ≡ op (a / 2) (b / 2) * 2 + digit (a % 2) (b % 2))
    (comm : (a b : ℕ) → digit a b ≡ digit b a) where
  swapped : (n a b : ℕ) → a + b ≤ n → op a b ≡ op b a
  swapped zero a b h =
      let e : a ≡ 0 = omega arith in let e' : b ≡ 0 = omega arith in rw (e, e') refl
  swapped (suc n) a b h =
      halves a b
      ∙ rw (swapped n (a / 2) (b / 2) (omega arith), comm (a % 2) (b % 2)) (sym (halves b a))

pub bit_and_comm : (a b : ℕ) → bit_and a b ≡ bit_and b a
bit_and_comm a b = swapped bit_and min bit_and-halves (λ x y. omega arith) (a + b) a b (omega arith)

pub bit_or_comm : (a b : ℕ) → bit_or a b ≡ bit_or b a
bit_or_comm a b = swapped bit_or max bit_or-halves (λ x y. omega arith) (a + b) a b (omega arith)

bit_and-self_below : (n a : ℕ) → a ≤ n → bit_and a a ≡ a
bit_and-self_below zero a h = let e : a ≡ 0 = omega arith in rw e (bit_and-zero 0)
bit_and-self_below (suc n) a h =
    omega (arith, bit_and-halves a a, bit_and-self_below n (a / 2) (omega arith))

pub bit_and_self : (a : ℕ) → bit_and a a ≡ a
bit_and_self a = bit_and-self_below a a (omega arith)
