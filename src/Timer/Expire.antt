-- ===== src/Timer/Expire.antt =====
-- `TimerManager::listExpiredCb` (timer/timer.cpp): which timers fire, and what is left armed.
use sylar_net_server_framewo.Common.{
  ℕ, ◌+◌, ◌≡◌, refl, ap, ◌∙◌, inl, inr, Bool, false, ◌&&◌, Option, none, List, [], ◌∷◌, map, arith,
  ltb, leb, ◌==◌, if◌then◌else◌, All, Bool-cases,
}
use sylar_net_server_framewo.Timer.Defs.{
  Timer, TimerManager, Func, store, wrap, insert, fire, list_expired_cb,
}
use sylar_net_server_framewo.Timer.Order.{IsSorted, IsSorted-store, insert-IsSorted}
use sylar_net_server_framewo.Timer.Sets.{has, has_false→Avoids, has-insert, sorted_head}
use sylar_net_server_framewo.Timer.Due.{due, later, split_due}

abbrev pub rearmed : ℕ → Timer → Timer
rearmed now t =
    if t.recurring then record t { next = wrap (now + t.ms) } else record t { cb = none }

-- The state behind the timers `ps` of `m` have fired.
pub record Fired (now : ℕ) (ps : List ℕ) (m : TimerManager) (cbs : List (Option Func))
    (m' : TimerManager) : Type 0 where
  pub called : cbs ≡ map (λ p. (m.heap p).cb) ps
  pub sorted : IsSorted m'.heap m'.timers
  pub changed : (q : ℕ) → m'.heap q ≡ (if has q ps then rearmed now (m.heap q) else m.heap q)
  pub armed :
      (q : ℕ) → has q m'.timers ≡ (if has q ps then (m.heap q).recurring else has q m.timers)

-- No timer twice, and none of them in the set.
abbrev pub Taken : List ℕ → TimerManager → Type 0
Taken [] m = Unit {0}
Taken (p ∷ ps) m = (has p ps ≡ false) × (has p m.timers ≡ false) × Taken ps m

fire_one : ℕ → ℕ → TimerManager → TimerManager
fire_one now p m =
    let t = m.heap p in
    let again = store m.heap p (record t { next = wrap (now + t.ms) }) in
    if t.recurring
    then record m { heap = again; timers = insert again p m.timers }
    else record m { heap = store m.heap p (record t { cb = none }) }

fire_one-armed :
    (now p : ℕ) (m : TimerManager) (q : ℕ)
    → has p m.timers ≡ false
    → has q (fire_one now p m).timers ≡ (if q == p then (m.heap p).recurring else has q m.timers)
unfolding fire_one
fire_one-armed now p m q h = ground (
  arith,
  has-insert (store m.heap p (record (m.heap p) { next = wrap (now + (m.heap p).ms) })) q p
      m.timers,
)

fire_one-heap :
    (now p : ℕ) (m : TimerManager) (q : ℕ)
    → (fire_one now p m).heap q ≡ (if q == p then rearmed now (m.heap p) else m.heap q)
unfolding fire_one
fire_one-heap now p m q = ground arith

fire_one-IsSorted :
    (now p : ℕ) (m : TimerManager)
    → has p m.timers ≡ false
    → IsSorted m.heap m.timers
    → IsSorted (fire_one now p m).heap (fire_one now p m).timers
unfolding fire_one
fire_one-IsSorted now p m h s = elim (Bool-cases (m.heap p).recurring) [
  | inl e ↦ rw e (
      insert-IsSorted _ p m.timers
        (IsSorted-store m.heap p _ m.timers (has_false→Avoids p m.timers h) s))
  | inr e ↦ rw e (IsSorted-store m.heap p _ m.timers (has_false→Avoids p m.timers h) s)
]

fire_one-Taken :
    (now p : ℕ) (m : TimerManager) (ps : List ℕ)
    → has p m.timers ≡ false
    → has p ps ≡ false
    → Taken ps m
    → Taken ps (fire_one now p m)
fire_one-Taken now p m [] h k t = tt
fire_one-Taken now p m (q ∷ ps) h k t = (
  t.0,
  ground (arith, fire_one-armed now p m q h, t.1),
  fire_one-Taken now p m ps h (ground arith) t.2,
)

fire-cons :
    (now p : ℕ) (ps : List ℕ) (m : TimerManager)
    → fire now (p ∷ ps) m
      ≡ ((m.heap p).cb ∷ (fire now ps (fire_one now p m)).0, (fire now ps (fire_one now p m)).1)
unfolding fire fire_one
fire-cons now p ps m = refl

map_other :
    (now p : ℕ) (m : TimerManager) (ps : List ℕ)
    → has p ps ≡ false
    → map (λ q. ((fire_one now p m).heap q).cb) ps ≡ map (λ q. (m.heap q).cb) ps
map_other now p m [] h = refl
map_other now p m (q ∷ ps) h = ground (arith, fire_one-heap now p m q, map_other now p m ps)

fire-Fired :
    (now : ℕ) (ps : List ℕ) (m : TimerManager)
    → Taken ps m
    → IsSorted m.heap m.timers
    → Fired now ps m (fire now ps m).0 (fire now ps m).1
fire-Fired now [] m t s =
    unfold fire in record { called = refl; sorted = s; changed = λ q. refl; armed = λ q. refl }
fire-Fired now (p ∷ ps) m t s =
    let m₁ = fire_one now p m in
    let f : Fired now ps m₁ (fire now ps m₁).0 (fire now ps m₁).1 =
      fire-Fired now ps m₁ (fire_one-Taken now p m ps t.1 t.0 t.2)
        (fire_one-IsSorted now p m t.1 s) in
    rw (fire-cons now p ps m) (record {
      called = ap (◌∷◌ (m.heap p).cb) (f.called ∙ map_other now p m ps t.0);
      sorted = f.sorted;
      changed = λ q. ground (arith, f.changed q, fire_one-heap now p m q, t.0);
      armed = λ q.
          ground (arith, f.armed q, fire_one-heap now p m q, fire_one-armed now p m q t.1, t.0);
    })

module _ (heap : ℕ → Timer) (now : ℕ) where
  has-due : (q : ℕ) (ps : List ℕ) → has q (due heap now ps) ≡ (leb (heap q).next now && has q ps)
  has-due q [] = ground arith
  has-due q (p ∷ ps) = ground (arith, has-due q ps)

  has-later :
      (q : ℕ) (ps : List ℕ) → has q (later heap now ps) ≡ (ltb now (heap q).next && has q ps)
  has-later q [] = ground arith
  has-later q (p ∷ ps) = ground (arith, has-later q ps)

  All-later {κ} : (P : ℕ → Type κ) (ps : List ℕ) → All P ps → All P (later heap now ps)
  All-later P [] h = tt
  All-later P (p ∷ ps) h = elim (Bool-cases (leb (heap p).next now)) [
    | inl e ↦ rw e (All-later P ps h.1)
    | inr e ↦ rw e (h.0, All-later P ps h.1)
  ]

  later-IsSorted : (ps : List ℕ) → IsSorted heap ps → IsSorted heap (later heap now ps)
  later-IsSorted [] s = tt
  later-IsSorted (p ∷ ps) s = elim (Bool-cases (leb (heap p).next now)) [
    | inl e ↦ rw e (later-IsSorted ps s.1)
    | inr e ↦ rw e (All-later _ ps s.0, later-IsSorted ps s.1)
  ]

  due-Taken :
      (all ps : List ℕ) (m : TimerManager)
      → m.timers ≡ later heap now all
      → IsSorted heap ps
      → Taken (due heap now ps) m
  due-Taken all [] m e s = tt
  due-Taken all (p ∷ ps) m e s = elim (Bool-cases (leb (heap p).next now)) [
    | inr gt ↦ rw gt (due-Taken all ps m e s.1)
    | inl le ↦ rw le (
      ground (arith, has-due p ps, sorted_head heap p ps s),
      ap (has p) e ∙ ground (arith, has-later p all, le),
      due-Taken all ps m e s.1,
    )
  ]

list_expired_cb-fire :
    (probe now : ℕ) (heap : ℕ → Timer) (timers : List ℕ) (tickled : Bool) (prev_time : ℕ)
    → IsSorted heap timers
    → has probe timers ≡ false
    → let m = λ (l : List ℕ).
      let r : TimerManager = record {
        heap = heap;
        timers = l;
        tickled = tickled;
        prev_time = prev_time;
      } in
      r in
      list_expired_cb probe now (m timers)
      ≡ fire now (due heap now timers) (m (later heap now timers))
unfolding list_expired_cb
list_expired_cb-fire probe now heap [] tickled prev_time s h = unfold fire in refl
list_expired_cb-fire probe now heap (p ∷ ps) tickled prev_time s h =
    let (e, f) = split_due heap now probe (p ∷ ps) (has_false→Avoids probe (p ∷ ps) h) s in
    rw (e, f) refl

-- `listExpiredCb` at time `now`, on a sorted set: it returns the callbacks of all timers whose
-- deadline has come, in the order of the set, and of no other; of these it arms the recurring ones
-- again, one period from now, and takes the others out of the set and clears their callbacks; it
-- leaves all other timers as they were, and the set sorted.
pub list_expired_cb-Fired :
    (probe now : ℕ) (m : TimerManager)
    → IsSorted m.heap m.timers
    → has probe m.timers ≡ false
    → let fired = due m.heap now m.timers in
      let r = list_expired_cb probe now m in
      (r.0 ≡ map (λ p. (m.heap p).cb) fired)
      × IsSorted r.1.heap r.1.timers
      × ((q : ℕ) → r.1.heap q ≡ (if has q fired then rearmed now (m.heap q) else m.heap q))
      × ((q : ℕ)
          → has q r.1.timers ≡ (if has q fired then (m.heap q).recurring else has q m.timers))
list_expired_cb-Fired probe now m s h =
    let m₁ = record m { timers = later m.heap now m.timers } in
    let fired = due m.heap now m.timers in
    let f : Fired now fired m₁ (fire now fired m₁).0 (fire now fired m₁).1 =
      fire-Fired now fired m₁ (due-Taken m.heap now m.timers m.timers m₁ refl s)
        (later-IsSorted m.heap now m.timers s) in
    rw (list_expired_cb-fire probe now m.heap m.timers m.tickled m.prev_time s h) (
      f.called,
      f.sorted,
      f.changed,
      λ q.
          ground (arith, f.armed q, has-due m.heap now q m.timers, has-later m.heap now q m.timers),
    )
