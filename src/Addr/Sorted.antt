-- ===== src/Addr/Sorted.antt =====
-- The order of addresses is total and transitive (`operator<` and `operator==` of socket/address.cpp).
use sylar_net_server_framewo.Common.{
  ℕ, ◌<◌, ◌≡◌, refl, sym, ap, ◌∙◌, subst, ◌⊎◌, inl, inr, Bool, true, false, List, [], ◌∷◌, arith,
  tests, ltb, ◌==◌, Bool-cases,
}
use sylar_net_server_framewo.Common.Checked.{Checked, ok}
use sylar_net_server_framewo.Bytes.State.{Endian}
use sylar_net_server_framewo.Addr.Defs.{Address}
use sylar_net_server_framewo.Addr.Lookup.{same_text}
use sylar_net_server_framewo.Addr.Order.{
  less, equal, Fits, key, before, less-before, equal-same_text,
}

-- One of: before, the same, behind.
abbrev pub Trichotomy : Checked Bool → Checked Bool → Checked Bool → Type 0
Trichotomy lt eq gt =
    (lt ≡ ok true) × (eq ≡ ok false) × (gt ≡ ok false)
    ⊎ ((lt ≡ ok false) × (eq ≡ ok true) × (gt ≡ ok false)
        ⊎ (lt ≡ ok false) × (eq ≡ ok false) × (gt ≡ ok true))

before-Trichotomy :
    (xs ys : List ℕ) → Trichotomy (ok (before xs ys)) (ok (same_text xs ys)) (ok (before ys xs))
unfolding before
before-Trichotomy [] [] = inr (inl (refl, refl, refl))
before-Trichotomy [] (y ∷ ys) = inl (refl, refl, refl)
before-Trichotomy (x ∷ xs) [] = inr (inr (refl, refl, refl))
before-Trichotomy (x ∷ xs) (y ∷ ys) = elim (Bool-cases (ltb x y)) [
  | inl lt ↦
      let ne : (x == y) ≡ false = ground arith in
      let le : ltb y x ≡ false = ground arith in rw (lt, ne, le) (inl (refl, refl, refl))
  | inr ge ↦ elim (Bool-cases (ltb y x)) [
    | inl gt ↦
        let ne : (x == y) ≡ false = ground arith in rw (ge, gt, ne) (inr (inr (refl, refl, refl)))
    | inr same ↦
        let eq : (x == y) ≡ true = ground arith in rw (ge, same, eq) (before-Trichotomy xs ys)
  ]
]

-- Of two addresses whose lengths fit, either the first is below the second, or they are equal, or the
-- second is below the first, and only one of these.
pub less-Trichotomy :
    (host : Endian) (a b : Address)
    → Fits host a
    → Fits host b
    → Trichotomy (less host a b) (equal host a b) (less host b a)
less-Trichotomy host a b h g =
    rw (less-before host a b h g, equal-same_text host a b h g, less-before host b a g h)
      (before-Trichotomy (key host a) (key host b))

before-inv :
    (x y : ℕ) (xs ys : List ℕ)
    → before (x ∷ xs) (y ∷ ys) ≡ true
    → (x < y) ⊎ (x ≡ y) × (before xs ys ≡ true)
unfolding before
before-inv x y xs ys h = elim (Bool-cases (ltb x y)) [
  | inl lt ↦ inl (omega tests)
  | inr ge ↦ elim (Bool-cases (ltb y x)) [
    | inl gt ↦ let e : false ≡ true = rw (ge, gt) at h in cc
    | inr same ↦ let e : before xs ys ≡ true = rw (ge, same) at h in inr (omega tests, e)
  ]
]

before-lt : (x y : ℕ) (xs ys : List ℕ) → x < y → before (x ∷ xs) (y ∷ ys) ≡ true
unfolding before
before-lt x y xs ys h = let t : ltb x y ≡ true = ground arith in rw t refl

before-eq : (x : ℕ) (xs ys : List ℕ) → before xs ys ≡ true → before (x ∷ xs) (x ∷ ys) ≡ true
unfolding before
before-eq x xs ys h = let t : ltb x x ≡ false = ground arith in rw t h

before_trans : (xs ys zs : List ℕ) → before xs ys ≡ true → before ys zs ≡ true → before xs zs ≡ true
unfolding before
before_trans [] [] zs h g = g
before_trans [] (y ∷ ys) [] h g = cc
before_trans [] (y ∷ ys) (z ∷ zs) h g = refl
before_trans (x ∷ xs) [] zs h g = cc
before_trans (x ∷ xs) (y ∷ ys) [] h g = cc
before_trans (x ∷ xs) (y ∷ ys) (z ∷ zs) h g = elim (before-inv x y xs ys h) [
  | inl p ↦ elim (before-inv y z ys zs g) [
    | inl q ↦ before-lt x z xs zs (omega arith)
    | inr (q, g') ↦ before-lt x z xs zs (omega arith)
  ]
  | inr (p, h') ↦ elim (before-inv y z ys zs g) [
    | inl q ↦ before-lt x z xs zs (omega arith)
    | inr (q, g') ↦
        subst (λ t. before (x ∷ xs) (t ∷ zs) ≡ true) (p ∙ q)
          (before-eq x xs zs (before_trans xs ys zs h' g'))
  ]
]

ok_true : (b : Bool) → ok b ≡ ok true → b ≡ true
ok_true true h = refl
ok_true false h = cc

-- Below is transitive.
pub less-transitive :
    (host : Endian) (a b c : Address)
    → Fits host a
    → Fits host b
    → Fits host c
    → less host a b ≡ ok true
    → less host b c ≡ ok true
    → less host a c ≡ ok true
less-transitive host a b c ha hb hc p q =
    less-before host a c ha hc
    ∙ ap ok (
        before_trans (key host a) (key host b) (key host c)
          (ok_true _ (sym (less-before host a b ha hb) ∙ p))
          (ok_true _ (sym (less-before host b c hb hc) ∙ q)))
