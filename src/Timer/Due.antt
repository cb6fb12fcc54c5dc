-- ===== src/Timer/Due.antt =====
-- The timers that are due, and what `lower_bound` finds of them (timer/timer.cpp).
use sylar_net_server_framewo.Common.{
  ℕ, ◌≤◌, ◌<◌, ◌≡◌, refl, ap, sym, inl, inr, true, false, List, [], ◌∷◌, ◌++◌, arith, tests, leb,
  ◌==◌, if◌then◌else◌, All, Bool-cases, le→leb,
}
use sylar_net_server_framewo.Timer.Defs.{
  Timer, store, bare_timer, less, before, from, due_now, not_due,
}
use sylar_net_server_framewo.Timer.Order.{less-le, not_less-le, IsSorted, Avoids, All-map_imp}

-- The timers of a list that are due, by their deadlines alone.
abbrev pub due : (ℕ → Timer) → ℕ → List ℕ → List ℕ
due heap now [] = []
due heap now (p ∷ ps) = if leb (heap p).next now then p ∷ due heap now ps else due heap now ps

abbrev pub later : (ℕ → Timer) → ℕ → List ℕ → List ℕ
later heap now [] = []
later heap now (p ∷ ps) = if leb (heap p).next now then later heap now ps else p ∷ later heap now ps

module _ (heap : ℕ → Timer) (now : ℕ) where
  none_due :
      (p : ℕ) (ps : List ℕ)
      → now < (heap p).next
      → All (λ q. less heap p q ≡ true) ps
      → (due heap now ps ≡ []) × (later heap now ps ≡ ps)
  none_due p [] h a = (refl, refl)
  none_due p (q ∷ ps) h a = ground (arith, less-le heap p q, none_due p ps h a.1)

module _ (heap : ℕ → Timer) (now probe : ℕ) where
  -- The heap with the local timer of `listExpiredCb`.
  abbrev probed : ℕ → Timer
  probed = store heap probe (bare_timer now)

  not_due_above :
      (ps : List ℕ)
      → Avoids probe ps
      → IsSorted heap ps
      → All (λ q. now ≤ (heap q).next) ps
      → (due_now probed now ps ≡ due heap now ps) × (not_due probed now ps ≡ later heap now ps)
  unfolding due_now not_due
  not_due_above [] h s a = (refl, refl)
  not_due_above (q ∷ ps) h s a =
      let same : probed q ≡ heap q = ground (arith, h.0) in
      elim (Bool-cases ((heap q).next == now)) [
        | inl e ↦
            let le : leb (heap q).next now ≡ true = ground arith in
            let ih = not_due_above ps h.1 s.1 a.1 in
            (rw (same, e, le) (ap (◌∷◌ q) ih.0), rw (same, e, le) ih.1)
        | inr e ↦
            let gt : leb (heap q).next now ≡ false = ground (arith, a.0) in
            let rest = none_due heap now q ps (omega tests) s.0 in
            (rw (same, e, gt) (sym rest.0), rw (same, e, gt) (ap (◌∷◌ q) (sym rest.1)))
      ]

  pub split_due :
      (ps : List ℕ)
      → Avoids probe ps
      → IsSorted heap ps
      → (before probed probe ps ++ due_now probed now (from probed probe ps) ≡ due heap now ps)
        × (not_due probed now (from probed probe ps) ≡ later heap now ps)
  unfolding before from
  split_due [] h s = unfold due_now not_due in (refl, refl)
  split_due (q ∷ ps) h s =
      let same : probed q ≡ heap q = ground (arith, h.0) in
      let at_probe : probed probe ≡ bare_timer now = ground arith in
      elim (Bool-cases (less probed q probe)) [
        | inl lt ↦
            let le : leb (heap q).next now ≡ true = le→leb _ _ (
              omega (
                arith,
                less-le probed q probe lt,
                ap (λ t. t.next) same,
                ap (λ t. t.next) at_probe,
              )) in
            let ih = split_due ps h.1 s.1 in (rw (lt, le) (ap (◌∷◌ q) ih.0), rw (lt, le) ih.1)
        | inr ge ↦
            let ge' : now ≤ (heap q).next = omega (
              arith,
              not_less-le probed q probe ge,
              ap (λ t. t.next) same,
              ap (λ t. t.next) at_probe,
            ) in
            rw ge (
              not_due_above (q ∷ ps) h s
                (ge', All-map_imp _ _ (λ r k. omega (arith, less-le heap q r k)) ps s.0))
      ]

-- What becomes of a timer that fires.
