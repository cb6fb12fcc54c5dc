-- ===== src/Sched/Pick.antt =====
-- Which task a round of `run` takes, and what `schedule` adds (fiber/scheduler.h and .cpp).
use sylar_net_server_framewo.Common.{
  ℕ, ◌≡◌, refl, ap, ◌∙◌, sym, ◌⊎◌, inl, inr, Bool, true, false, ◌||◌, none, some, List, [], ◌∷◌,
  ◌++◌, arith, if◌then◌else◌, All, Bool-cases,
}
use sylar_net_server_framewo.Common.Checked.{ok}
use sylar_net_server_framewo.Sched.Defs.{
  State, FiberTask, has_work, Picked, other_thread, busy, pass, pick, schedule_non_lock,
  schedule_loop,
}

-- A task of another thread, or of a fiber that runs.
abbrev pub Skipped : ℕ → (ℕ → State) → FiberTask → Type 0
Skipped me states t = (other_thread me t || busy states t) ≡ true

abbrev pub any_other : ℕ → List FiberTask → Bool
any_other me [] = false
any_other me (t ∷ ts) = other_thread me t || any_other me ts

-- The first task that is not skipped is taken, and the others keep their order.
pub record Taken (me : ℕ) (states : ℕ → State) (ts : List FiberTask) (r : Picked) (t : FiberTask)
    (before after : List FiberTask) : Type 0 where
  pub split : ts ≡ before ++ t ∷ after
  pub skipped : All (Skipped me states) before
  pub runnable : (other_thread me t || busy states t) ≡ false
  pub task : r.task ≡ some t
  pub rest : r.rest ≡ before ++ after
  pub need_tickle : r.need_tickle ≡ any_other me before

-- There is nothing to do on this thread.
pub record Nothing (me : ℕ) (states : ℕ → State) (ts : List FiberTask) (r : Picked) : Type 0 where
  pub skipped : All (Skipped me states) ts
  pub task : r.task ≡ none
  pub rest : r.rest ≡ ts
  pub need_tickle : r.need_tickle ≡ true

abbrev pub Search : ℕ → (ℕ → State) → List FiberTask → Picked → Type 0
Search me states ts r =
    ((t : FiberTask) × (before : List FiberTask) × (after : List FiberTask) × Taken me states ts r t
        before after)
    ⊎ Nothing me states ts r

Search-pass :
    (me : ℕ) (states : ℕ → State) (x : FiberTask) (ts : List FiberTask) (r : Picked) (need : Bool)
    → Skipped me states x
    → other_thread me x ≡ need
    → Search me states ts r
    → Search me states (x ∷ ts) (pass x need r)
Search-pass me states x ts r need s o (inl (t, before, after, h)) = inl (
  t,
  x ∷ before,
  after,
  record {
    split = ap (◌∷◌ x) h.split;
    skipped = (s, h.skipped);
    runnable = h.runnable;
    task = h.task;
    rest = ap (◌∷◌ x) h.rest;
    need_tickle = let n = h.need_tickle in rw (o, n) refl;
  },
)
Search-pass me states x ts r need s o (inr h) = inr (record {
  skipped = (s, h.skipped);
  task = h.task;
  rest = ap (◌∷◌ x) h.rest;
  need_tickle = let n = h.need_tickle in ground arith;
})

-- The search of a round in a queue whose tasks have work: the first task that is neither for another
-- thread nor of a running fiber is taken out and the order of the others is kept, with a tickle if a
-- task of another thread was passed; or every task is skipped, nothing is taken and there is a tickle.
pub pick-Search :
    (me : ℕ) (states : ℕ → State) (ts : List FiberTask)
    → All (λ t. has_work t ≡ true) ts
    → (r : Picked) × (pick me states ts ≡ ok r) × Search me states ts r
unfolding pick
pick-Search me states [] h = (
  record { need_tickle = true; task = none; rest = [] },
  refl,
  inr (record { skipped = tt; task = refl; rest = refl; need_tickle = refl }),
)
pick-Search me states (x ∷ ts) h =
    let (r, e, s) = pick-Search me states ts h.1 in
    elim (Bool-cases (other_thread me x)) [
      | inl o ↦
          (pass x true r, rw (o, e) refl, Search-pass me states x ts r true (ground arith) o s)
      | inr o ↦ elim (Bool-cases (busy states x)) [
        | inl b ↦ (
          pass x false r,
          rw (o, h.0, b, e) refl,
          Search-pass me states x ts r false (ground arith) o s,
        )
        | inr b ↦ (
          record { need_tickle = false; task = some x; rest = ts },
          rw (o, h.0, b) refl,
          inl (
            x,
            [],
            ts,
            record {
              split = refl;
              skipped = tt;
              runnable = ground arith;
              task = refl;
              rest = refl;
              need_tickle = refl;
            },
          ),
        )
      ]
    ]

-- The tasks that have work.
abbrev pub with_work : List FiberTask → List FiberTask
with_work [] = []
with_work (t ∷ ts) = if has_work t then t ∷ with_work ts else with_work ts

abbrev pub is_empty : List FiberTask → Bool
is_empty [] = true
is_empty (t ∷ ts) = false

append-one : (xs ys : List FiberTask) (t : FiberTask) → (xs ++ t ∷ []) ++ ys ≡ xs ++ t ∷ ys
append-one [] ys t = refl
append-one (x ∷ xs) ys t = ap (◌∷◌ x) (append-one xs ys t)

append-empty : (xs : List FiberTask) → xs ++ [] ≡ xs
append-empty [] = refl
append-empty (x ∷ xs) = ap (◌∷◌ x) (append-empty xs)

schedule_non_lock-appends :
    (t : FiberTask) (fibers rest : List FiberTask)
    → (schedule_non_lock t fibers).1 ++ rest ≡ fibers ++ (if has_work t then t ∷ rest else rest)
unfolding schedule_non_lock
schedule_non_lock-appends t fibers rest = elim (Bool-cases (has_work t)) [
  | inl w ↦ rw w (append-one fibers rest t)
  | inr n ↦ rw n refl
]

-- Scheduling a range appends its tasks that have work, in order.
pub schedule_loop-appends :
    (ts : List FiberTask) (need : Bool) (fibers : List FiberTask)
    → (schedule_loop ts need fibers).1 ≡ fibers ++ with_work ts
unfolding schedule_loop
schedule_loop-appends [] need fibers = sym (append-empty fibers)
schedule_loop-appends (t ∷ ts) need fibers =
    schedule_loop-appends ts _ _ ∙ schedule_non_lock-appends t fibers (with_work ts)
