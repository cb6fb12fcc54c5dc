-- ===== src/Timer/Order.antt =====
-- The order of the timer set (timer/timer.cpp, `Timer::Comparator`), and sorted lists of timers.
use sylar_net_server_framewo.Common.{
  Bool-cases, ℕ, ◌≤◌, ◌<◌, ◌≡◌, ◌≢◌, refl, ap, ◌∙◌, ◌⊎◌, inl, inr, Bool, true, false, Option, none,
  some, List, [], ◌∷◌, arith, All,
}
use sylar_net_server_framewo.Timer.Defs.{Timer, store, less, comparator, insert}

-- What `std::set` needs of its comparator, and that it keeps all that differ.
pub record IsStrictOrder {ℓ} (A : Type ℓ) (lt : A → A → Bool) : Type ℓ where
  pub irrefl : (a : A) → lt a a ≡ false
  pub trans : (a b c : A) → lt a b ≡ true → lt b c ≡ true → lt a c ≡ true
  pub total : (a b : A) → a ≢ b → (lt a b ≡ true) ⊎ (lt b a ≡ true)

module _ (heap : ℕ → Timer) where
  pub less_irrefl : (a : ℕ) → less heap a a ≡ false
  unfolding less
  less_irrefl a = ground arith

  pub less_trans : (a b c : ℕ) → less heap a b ≡ true → less heap b c ≡ true → less heap a c ≡ true
  unfolding less
  less_trans a b c h k = ground arith

  pub less_total : (a b : ℕ) → a ≢ b → (less heap a b ≡ true) ⊎ (less heap b a ≡ true)
  unfolding less
  less_total a b h = ground arith

  pub less_asymm : (a b : ℕ) → less heap a b ≡ true → less heap b a ≡ false
  unfolding less
  less_asymm a b h = ground arith

  -- The order is first that of the deadlines.
  pub less-le : (a b : ℕ) → less heap a b ≡ true → (heap a).next ≤ (heap b).next
  unfolding less
  less-le a b h = ground arith

  pub not_less-le : (a b : ℕ) → less heap a b ≡ false → (heap b).next ≤ (heap a).next
  unfolding less
  not_less-le a b h = ground arith

  pub less_of_lt : (a b : ℕ) → (heap a).next < (heap b).next → less heap a b ≡ true
  unfolding less
  less_of_lt a b h = ground arith

  comparator_total :
      (a b : Option ℕ) → a ≢ b → (comparator heap a b ≡ true) ⊎ (comparator heap b a ≡ true)
  unfolding comparator
  comparator_total none none h = absurd (h refl)
  comparator_total none (some b) h = inr refl
  comparator_total (some a) none h = inl refl
  comparator_total (some a) (some b) h = less_total a b (λ e. h (ap some e))

  comparator_trans :
      (a b c : Option ℕ)
      → comparator heap a b ≡ true
      → comparator heap b c ≡ true
      → comparator heap a c ≡ true
  unfolding comparator
  comparator_trans none none c h k = cc
  comparator_trans none (some b) c h k = cc
  comparator_trans (some a) none none h k = cc
  comparator_trans (some a) none (some c) h k = cc
  comparator_trans (some a) (some b) none h k = refl
  comparator_trans (some a) (some b) (some c) h k = less_trans a b c h k

  comparator_irrefl : (a : Option ℕ) → comparator heap a a ≡ false
  unfolding comparator
  comparator_irrefl none = refl
  comparator_irrefl (some a) = less_irrefl a

  -- The comparator is a strict order on all pointers, the null pointer included, and it tells any
  -- two different timers apart.
  pub comparator-IsStrictOrder : IsStrictOrder (Option ℕ) (comparator heap)
  comparator-IsStrictOrder = record {
    irrefl = comparator_irrefl;
    trans = comparator_trans;
    total = comparator_total;
  }

  -- The list that the set's iterators go through.
  abbrev pub IsSorted : List ℕ → Type 0
  IsSorted [] = Unit {0}
  IsSorted (p ∷ ps) = All (λ q. less heap p q ≡ true) ps × IsSorted ps

-- No timer of the list is `p`.
abbrev pub Avoids : ℕ → List ℕ → Type 0
Avoids p = All (λ q. q ≢ p)

pub All-map_imp {ℓ κ} :
    {A : Type ℓ} (P Q : A → Type κ) (f : (a : A) → P a → Q a) (xs : List A) → All P xs → All Q xs
All-map_imp P Q f [] h = tt
All-map_imp P Q f (x ∷ xs) h = (f x h.0, All-map_imp P Q f xs h.1)

module _ (heap : ℕ → Timer) (p : ℕ) (t : Timer) where
  pub less-store : (a b : ℕ) → a ≢ p → b ≢ p → less (store heap p t) a b ≡ less heap a b
  unfolding less
  less-store a b ha hb = ground arith

  All-less-store :
      (a : ℕ) (ps : List ℕ)
      → a ≢ p
      → Avoids p ps
      → All (λ q. less heap a q ≡ true) ps
      → All (λ q. less (store heap p t) a q ≡ true) ps
  All-less-store a [] ha hb h = tt
  All-less-store a (q ∷ ps) ha hb h =
      (less-store a q ha hb.0 ∙ h.0, All-less-store a ps ha hb.1 h.1)

  -- A timer outside the set may change.
  pub IsSorted-store : (ps : List ℕ) → Avoids p ps → IsSorted heap ps → IsSorted (store heap p t) ps
  IsSorted-store [] h s = tt
  IsSorted-store (q ∷ ps) h s = (All-less-store q ps h.0 h.1 s.0, IsSorted-store ps h.1 s.1)

module _ (heap : ℕ → Timer) where
  pub All-insert {κ} :
      (P : ℕ → Type κ) (p : ℕ) (ps : List ℕ) → P p → All P ps → All P (insert heap p ps)
  unfolding insert
  All-insert P p [] hp h = (hp, tt)
  All-insert P p (q ∷ ps) hp h = elim (Bool-cases (less heap q p)) [
    | inl lt ↦ rw lt (h.0, All-insert P p ps hp h.1)
    | inr ge ↦ elim (Bool-cases (less heap p q)) [
      | inl gt ↦ rw (ge, gt) (hp, h)
      | inr eq ↦ rw (ge, eq) h
    ]
  ]

  All-less_trans :
      (p q : ℕ) (ps : List ℕ)
      → less heap p q ≡ true
      → All (λ r. less heap q r ≡ true) ps
      → All (λ r. less heap p r ≡ true) ps
  All-less_trans p q ps h = All-map_imp _ _ (λ r k. less_trans heap p q r h k) ps

  pub insert-IsSorted : (p : ℕ) (ps : List ℕ) → IsSorted heap ps → IsSorted heap (insert heap p ps)
  unfolding insert
  insert-IsSorted p [] s = (tt, tt)
  insert-IsSorted p (q ∷ ps) s = elim (Bool-cases (less heap q p)) [
    | inl lt ↦ rw lt (All-insert _ p ps lt s.0, insert-IsSorted p ps s.1)
    | inr ge ↦ elim (Bool-cases (less heap p q)) [
      | inl gt ↦ rw (ge, gt) ((gt, All-less_trans p q ps gt s.0), s)
      | inr eq ↦ rw (ge, eq) s
    ]
  ]
