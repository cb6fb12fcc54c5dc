-- ===== src/Sched/Defs.antt =====
-- `FiberTask` (fiber/fiber.h) and the `Scheduler` (fiber/scheduler.h and .cpp): its queue and one round
-- of the loop of `run`. What a fiber does between being swapped in and swapped out is a parameter, a
-- function on the whole state; so is whether the pointer to a fiber that the loop lets go is the last
-- one. The locks are not modelled.
use sylar_net_server_framewo.Common.{
  ℕ, ◌+◌, ◌-◌, Bool, true, false, not, ◌&&◌, ◌||◌, Option, none, some, List, [], ◌∷◌, ◌++◌, ◌==◌,
  if◌then◌else◌,
}
use sylar_net_server_framewo.Common.Checked.{Checked, ok, aborted, ◌>>=◌}

-- `Fiber::State`
pub data State : Type 0 where
  init hold exec term ready except : State

-- `thread` is none for -1, any thread.
pub record FiberTask : Type 0 where
  pub fiber : Option ℕ
  pub cb : Option ℕ
  pub thread : Option ℕ

abbrev pub is_some {ℓ} : {A : Type ℓ} → Option A → Bool
is_some none = false
is_some (some a) = true

abbrev pub is_exec : State → Bool
is_exec s = elim s [ exec ↦ true | _ ↦ false ]

abbrev pub is_ready : State → Bool
is_ready s = elim s [ ready ↦ true | _ ↦ false ]

-- `TERM` or `EXCEPT`
abbrev pub is_over : State → Bool
is_over s = elim s [ term ↦ true | except ↦ true | _ ↦ false ]

abbrev pub is_term : State → Bool
is_term s = elim s [ term ↦ true | _ ↦ false ]

abbrev pub is_init : State → Bool
is_init s = elim s [ init ↦ true | _ ↦ false ]

-- `states` and `cbs` are the states and the callbacks of the fibers, and `next` the identity of the
-- next new one; `tickles` counts the calls of `tickle`.
pub record Scheduler : Type 0 where
  pub fibers : List FiberTask
  pub active : ℕ
  pub idle_threads : ℕ
  pub running : Bool
  pub auto_stop : Bool
  pub states : ℕ → State
  pub cbs : ℕ → Option ℕ
  pub next : ℕ
  pub tickles : ℕ

abbrev pub set_state : ℕ → State → Scheduler → Scheduler
set_state f st s = record s { states = λ g. if f == g then st else s.states g }

abbrev pub set_cb : ℕ → Option ℕ → Scheduler → Scheduler
set_cb f cb s = record s { cbs = λ g. if f == g then cb else s.cbs g }

abbrev pub has_work : FiberTask → Bool
has_work t = is_some t.fiber || is_some t.cb

-- `scheduleNonLock`: whether to tickle, and the queue with the task, if it has work.
unfoldable pub schedule_non_lock : FiberTask → List FiberTask → Bool × List FiberTask
schedule_non_lock t fibers =
    (elim fibers [ [] ↦ true | (x ∷ xs) ↦ false ], if has_work t then fibers ++ t ∷ [] else fibers)

abbrev pub tickle_if : Bool → Scheduler → Scheduler
tickle_if b s = if b then record s { tickles = s.tickles + 1 } else s

-- `schedule` of one task.
unfoldable pub schedule : FiberTask → Scheduler → Scheduler
schedule t s = let r = schedule_non_lock t s.fibers in tickle_if r.0 (record s { fibers = r.1 })

-- The loop of `schedule` over a range of tasks, with `need_tickle` so far.
unfoldable pub schedule_loop : List FiberTask → Bool → List FiberTask → Bool × List FiberTask
schedule_loop [] need fibers = (need, fibers)
schedule_loop (t ∷ ts) need fibers =
    let r = schedule_non_lock t fibers in schedule_loop ts (need || r.0) r.1

unfoldable pub schedule_all : List FiberTask → Scheduler → Scheduler
schedule_all ts s =
    let r = schedule_loop ts false s.fibers in tickle_if r.0 (record s { fibers = r.1 })

-- The result of the search in `run`: `need_tickle`, the task that is taken and the queue without it.
pub record Picked : Type 0 where
  pub need_tickle : Bool
  pub task : Option FiberTask
  pub rest : List FiberTask

abbrev pub other_thread : ℕ → FiberTask → Bool
other_thread me t = elim t.thread [ none ↦ false | some id ↦ not (id == me) ]

abbrev pub busy : (ℕ → State) → FiberTask → Bool
busy states t = elim t.fiber [ none ↦ false | some f ↦ is_exec (states f) ]

abbrev pub pass : FiberTask → Bool → Picked → Picked
pass t need r = record { need_tickle = need || r.need_tickle; task = r.task; rest = t ∷ r.rest }

-- The search. Where a task is taken, `it == m_fibers.end()` reads an erased iterator; it is taken to
-- be false, and at the end of the list it is true.
unfoldable pub pick : ℕ → (ℕ → State) → List FiberTask → Checked Picked
pick me states [] = ok (record { need_tickle = true; task = none; rest = [] })
pick me states (t ∷ ts) =
    let rest = pick me states ts in
    if other_thread me t
    then (rest >>= λ r. ok (pass t true r))
    else if not (has_work t)
    then aborted
    else if busy states t
    then (rest >>= λ r. ok (pass t false r))
    else ok (record { need_tickle = false; task = some t; rest = ts })

-- `swapIn` from the loop, up to the return to the loop; `resume` is the code of the fiber.
unfoldable pub swap_in : (ℕ → Scheduler → Scheduler) → ℕ → Scheduler → Checked Scheduler
swap_in resume f s = if is_exec (s.states f) then aborted else ok (resume f (set_state f exec s))

-- After a fiber has returned: if it is ready it is scheduled again, else if it is not over it is on
-- hold.
unfoldable pub settle : ℕ → Option ℕ → Scheduler → Scheduler
settle f thread s =
    if is_ready (s.states f)
    then schedule (record { fiber = some f; cb = none; thread = thread }) s
    else if not (is_over (s.states f))
    then set_state f hold s
    else s

abbrev pub less_active : Scheduler → Scheduler
less_active s = record s { active = s.active - 1 }

-- The branch for a fiber.
unfoldable pub run_fiber :
    (ℕ → Scheduler → Scheduler) → ℕ → Option ℕ → Scheduler → Checked Scheduler
run_fiber resume f thread s = swap_in resume f s >>= λ s'. ok (settle f thread (less_active s'))

-- `Fiber::reset` with a callback, which asserts that the fiber does not run.
unfoldable pub reset : ℕ → Option ℕ → Scheduler → Checked Scheduler
reset f cb s =
    if is_init (s.states f) || is_over (s.states f)
    then ok (set_state f init (set_cb f cb s))
    else aborted

-- `new Fiber(cb, 0, false)`
unfoldable pub new_fiber : ℕ → Scheduler → Scheduler
new_fiber cb s = record (set_state s.next init (set_cb s.next (some cb) s)) { next = s.next + 1 }

-- A pointer to a fiber is reset: `~Fiber` of a fiber with a stack, if the pointer is the `sole` one.
unfoldable pub let_go : (ℕ → Scheduler → Bool) → Option ℕ → Scheduler → Checked Scheduler
let_go sole none s = ok s
let_go sole (some f) s =
    if sole f s && not (is_init (s.states f) || is_term (s.states f)) then aborted else ok s

-- The branch for a callback, which runs in the spare fiber `cb_fiber` or else in a new one. A fiber
-- that is over is spare again. `held` is the fiber of the task, which is let go.
unfoldable pub prepare : Option ℕ → ℕ → Scheduler → Checked (ℕ × Scheduler)
prepare none cb s = ok (s.next, new_fiber cb s)
prepare (some f) cb s = reset f (some cb) s >>= λ s'. ok (f, s')

unfoldable pub run_cb :
    (ℕ → Scheduler → Scheduler)
    → (ℕ → Scheduler → Bool)
    → Option ℕ
    → ℕ
    → Option ℕ
    → Option ℕ
    → Scheduler
    → Checked (Option ℕ × Scheduler)
run_cb resume sole cb_fiber cb held thread s = prepare cb_fiber cb s >>= λ r.
    let_go sole held r.1 >>= λ s₁. swap_in resume r.0 s₁ >>= λ s'.
    if is_ready (s'.states r.0) || not (is_over (s'.states r.0))
    then (let_go sole (some r.0) (settle r.0 thread (less_active s')) >>= λ s''. ok (none, s''))
    else (reset r.0 none (less_active s') >>= λ s''. ok (some r.0, s''))

-- The branch without a task: false ends the loop.
unfoldable pub run_idle : (ℕ → Scheduler → Scheduler) → ℕ → Scheduler → Checked (Bool × Scheduler)
run_idle resume idle_fiber s =
    let started = record s { idle_threads = s.idle_threads + 1 } in
    if is_term (s.states idle_fiber)
    then ok (false, s)
    else (swap_in resume idle_fiber started >>= λ s'.
        let back = record s' { idle_threads = s'.idle_threads - 1 } in
        ok (
          true,
          (if is_over (back.states idle_fiber) then back else set_state idle_fiber hold back),
        ))

-- What a round leaves: whether the loop goes on, the spare fiber, the fiber of `ft`, and the state.
pub record Round : Type 0 where
  pub go : Bool
  pub cb_fiber : Option ℕ
  pub last : Option ℕ
  pub scheduler : Scheduler

-- What a round does with a task whose fiber is null or over.
unfoldable pub run_rest :
    (ℕ → Scheduler → Scheduler)
    → (ℕ → Scheduler → Bool)
    → Option ℕ
    → FiberTask
    → Scheduler
    → Checked Round
run_rest resume sole cb_fiber t s = elim t.cb [
  | none ↦ ok (record { go = true; cb_fiber = cb_fiber; last = t.fiber; scheduler = less_active s })
  | some cb ↦
      (run_cb resume sole cb_fiber cb t.fiber t.thread s >>= λ r.
      ok (record { go = true; cb_fiber = r.0; last = none; scheduler = r.1 }))
]

-- What is left of a round after the search.
unfoldable pub run_task :
    (ℕ → Scheduler → Scheduler)
    → (ℕ → Scheduler → Bool)
    → ℕ
    → Option ℕ
    → Option FiberTask
    → Scheduler
    → Checked Round
run_task resume sole idle_fiber cb_fiber none s = run_idle resume idle_fiber s >>= λ r.
    ok (record { go = r.0; cb_fiber = cb_fiber; last = none; scheduler = r.1 })
run_task resume sole idle_fiber cb_fiber (some t) s = elim t.fiber [
  | none ↦ run_rest resume sole cb_fiber t s
  | some f ↦
      if is_over (s.states f)
      then run_rest resume sole cb_fiber t s
      else (run_fiber resume f t.thread s >>= λ s'.
          ok (record { go = true; cb_fiber = cb_fiber; last = some f; scheduler = s' }))
]

-- One round of the loop of `run` on the thread `me`, where `last` is the fiber of `ft` from the round
-- before.
unfoldable pub run_step :
    (ℕ → Scheduler → Scheduler)
    → (ℕ → Scheduler → Bool)
    → ℕ
    → ℕ
    → Option ℕ
    → Option ℕ
    → Scheduler
    → Checked Round
run_step resume sole me idle_fiber cb_fiber last s = let_go sole last s >>= λ s₀.
    pick me s₀.states s₀.fibers >>= λ r. run_task resume sole idle_fiber cb_fiber r.task (
      tickle_if r.need_tickle (record s₀ {
        fibers = r.rest;
        active = if is_some r.task then s₀.active + 1 else s₀.active;
      }))

-- `Scheduler::stopping`
unfoldable pub stopping : Scheduler → Bool
stopping s =
    s.auto_stop
    && not s.running
    && elim s.fibers [ [] ↦ true | (x ∷ xs) ↦ false ]
    && (s.active == 0)
