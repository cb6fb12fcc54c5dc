-- ===== src/Common/Numbers.antt =====
-- Arithmetic that is not linear: quotients, rounding up, and positions inside blocks.
use Prim.Native.Nat.{ℕ, ◌+◌, ◌-◌, ◌*◌, ◌/◌, ◌%◌, ◌≤◌, ◌<◌}
use mathlib.Core.Path.{◌≡◌, ap}
use native.Mathlib.Omega.{arith}
use native.Mathlib.Nat.{div-eq_of_lt-le, div-add-mod', lt-div-mul-add}

-- The quotient and the remainder, from the block that `p` lies in.
pub div_of_bounds : (c d p : ℕ) → c * d ≤ p → p < c * d + d → p / d ≡ c
div_of_bounds c d p lo hi = div-eq_of_lt-le d lo (omega arith)

pub mod_of_bounds : (c d p : ℕ) → c * d ≤ p → p < c * d + d → p ≡ c * d + p % d
mod_of_bounds c d p lo hi =
    omega (arith, div-add-mod' p d, ap (λ (t : ℕ). t * d) (div_of_bounds c d p lo hi))

pub ceil_div-ge : (m d : ℕ) → 0 < d → m ≤ (m + d - 1) / d * d
ceil_div-ge m d h = omega (arith, lt-div-mul-add {a = m + d - 1} h)
