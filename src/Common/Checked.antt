-- ===== src/Common/Checked.antt =====
-- Calls that may end in a failed `Assert` (util/macro.h) or in undefined behaviour.

pub data Checked {ℓ} (A : Type ℓ) : Type ℓ where
  ok : A → Checked A
  aborted : Checked A
  undefined : Checked A

infixl 5 ◌>>=◌
abbrev pub ◌>>=◌ {ℓ κ} : {A : Type ℓ} {B : Type κ} → Checked A → (A → Checked B) → Checked B
ok a >>= f = f a
aborted >>= f = aborted
undefined >>= f = undefined
