-- ===== src/Timer/Sets.antt =====
-- Membership in the timer set, and what `insert`, `find`, `erase` and the lower bound do to it
-- (timer/timer.cpp uses `std::set`).
use sylar_net_server_framewo.Common.{
  ℕ, ◌≡◌, ◌≢◌, refl, sym, inl, inr, Bool, true, false, not, ◌||◌, ◌&&◌, List, [], ◌∷◌, ◌++◌, arith,
  ◌==◌, if◌then◌else◌, All, Bool-cases,
}
use sylar_net_server_framewo.Timer.Defs.{Timer, less, insert, find, erase}
use sylar_net_server_framewo.Timer.Order.{
  less_irrefl, less_trans, less_total, IsSorted, Avoids, All-map_imp,
}

abbrev pub has : ℕ → List ℕ → Bool
has p [] = false
has p (q ∷ qs) = (p == q) || has p qs

pub has_false→Avoids : (p : ℕ) (ps : List ℕ) → has p ps ≡ false → Avoids p ps
has_false→Avoids p [] h = tt
has_false→Avoids p (q ∷ ps) h = (ground arith, has_false→Avoids p ps (ground arith))

pub Avoids→has_false : (p : ℕ) (ps : List ℕ) → Avoids p ps → has p ps ≡ false
Avoids→has_false p [] h = refl
Avoids→has_false p (q ∷ ps) h = ground (arith, h.0, Avoids→has_false p ps h.1)

pub has-append : (p : ℕ) (xs ys : List ℕ) → has p (xs ++ ys) ≡ (has p xs || has p ys)
has-append p [] ys = refl
has-append p (x ∷ xs) ys = ground (arith, has-append p xs ys)

module _ (heap : ℕ → Timer) where
  -- `insert` adds one key, and no other.
  pub has-insert : (q p : ℕ) (ps : List ℕ) → has q (insert heap p ps) ≡ ((q == p) || has q ps)
  unfolding insert
  has-insert q p [] = refl
  has-insert q p (r ∷ ps) = ground (arith, has-insert q p ps, less_total heap p r)

  not_less_self : (p q : ℕ) → less heap p q ≡ true → q ≢ p
  not_less_self p q h e = cc (less_irrefl heap p, e)

  pub above-Avoids : (p : ℕ) (ps : List ℕ) → All (λ q. less heap p q ≡ true) ps → Avoids p ps
  above-Avoids p ps h = All-map_imp _ _ (λ q k. not_less_self p q k) ps h

  -- A sorted list holds no timer twice.
  pub sorted_head : (p : ℕ) (ps : List ℕ) → IsSorted heap (p ∷ ps) → has p ps ≡ false
  sorted_head p ps s = Avoids→has_false p ps (above-Avoids p ps s.0)

  before-All :
      (p q : ℕ) (ps : List ℕ)
      → less heap p q ≡ true
      → All (λ r. less heap q r ≡ true) ps
      → has p (q ∷ ps) ≡ false
  before-All p q ps h a = Avoids→has_false p (q ∷ ps) (
    not_less_self p q h,
    above-Avoids p ps (All-map_imp _ _ (λ r k. less_trans heap p q r h k) ps a),
  )

  -- `find` finds what is in the set.
  pub find-has : (p : ℕ) (ps : List ℕ) → IsSorted heap ps → find heap p ps ≡ has p ps
  unfolding find
  find-has p [] s = refl
  find-has p (q ∷ ps) s = elim (Bool-cases (less heap q p)) [
    | inl lt ↦ ground (arith, lt, find-has p ps s.1, not_less_self q p lt)
    | inr ge ↦ elim (Bool-cases (less heap p q)) [
      | inl gt ↦ rw (ge, gt) (sym (before-All p q ps gt s.0))
      | inr eq ↦ ground (arith, ge, eq, less_total heap p q)
    ]
  ]

  erase-cons :
      (p q : ℕ) (ps : List ℕ)
      → erase heap p (q ∷ ps) ≡ (if less heap q p then q ∷ erase heap p ps else ps)
  unfolding erase
  erase-cons p q ps = elim (Bool-cases (less heap q p)) [
    | inl lt ↦ rw lt refl
    | inr ge ↦ rw ge refl
  ]

  pub All-erase {κ} : (P : ℕ → Type κ) (p : ℕ) (ps : List ℕ) → All P ps → All P (erase heap p ps)
  All-erase P p [] h = unfold erase in tt
  All-erase P p (q ∷ ps) h = elim (Bool-cases (less heap q p)) [
    | inl lt ↦ rw (erase-cons p q ps, lt) (h.0, All-erase P p ps h.1)
    | inr ge ↦ rw (erase-cons p q ps, ge) h.1
  ]

  -- Erasing a timer of the set keeps it sorted and takes out that timer alone.
  pub erase-IsSorted : (p : ℕ) (ps : List ℕ) → IsSorted heap ps → IsSorted heap (erase heap p ps)
  erase-IsSorted p [] s = unfold erase in tt
  erase-IsSorted p (q ∷ ps) s = elim (Bool-cases (less heap q p)) [
    | inl lt ↦ rw (erase-cons p q ps, lt) (All-erase _ p ps s.0, erase-IsSorted p ps s.1)
    | inr ge ↦ rw (erase-cons p q ps, ge) s.1
  ]

  pub has-erase :
      (r p : ℕ) (ps : List ℕ)
      → IsSorted heap ps
      → has p ps ≡ true
      → has r (erase heap p ps) ≡ (not (r == p) && has r ps)
  has-erase r p [] s h = cc
  has-erase r p (q ∷ ps) s h = elim (Bool-cases (less heap q p)) [
    | inl lt ↦
        rw (erase-cons p q ps, lt) (ground (arith, not_less_self q p lt, has-erase r p ps s.1))
    | inr ge ↦ elim (Bool-cases (less heap p q)) [
      | inl gt ↦ cc (before-All p q ps gt s.0)
      | inr eq ↦
          rw (erase-cons p q ps, ge) (ground (arith, less_total heap p q, sorted_head q ps s))
    ]
  ]
