-- ===== src/Fibers/Defs.antt =====
-- `Fiber` (fiber/fiber.h and .cpp) on one thread: which code runs and what `ucontext_t` each fiber
-- keeps. `swapcontext`, `getcontext` and `makecontext` are the documented ones: a context is a point
-- of some fiber's code, which is saved on the way out and resumed on the way in. They do not fail.
use sylar_net_server_framewo.Common.{
  ℕ, ◌+◌, Bool, true, false, ◌||◌, Option, none, some, ◌==◌, if◌then◌else◌,
}
use sylar_net_server_framewo.Common.Checked.{Checked, ok, aborted}
use sylar_net_server_framewo.Sched.Defs.{
  State, init, hold, exec, term, ready, except, is_exec, is_init, is_over,
}

-- A point of the code that a fiber runs: the start of `MainFunc` or `CallerMainFunc`, or a later one.
pub data Point : Type 0 where
  start start_caller : ℕ → Point
  inside : ℕ → ℕ → Point

-- `this` is `t_fiber`, `thread_fiber` is `t_threadFiber` and `main` is `Scheduler::getMainFiber()`.
pub record Cpu : Type 0 where
  pub code : Point
  pub this : ℕ
  pub thread_fiber : ℕ
  pub main : ℕ
  pub saved : ℕ → Point
  pub states : ℕ → State
  pub cbs : ℕ → Option ℕ
  pub fiber_id : ℕ
  pub fiber_count : ℕ

abbrev pub update {ℓ} : {A : Type ℓ} → (ℕ → A) → ℕ → A → ℕ → A
update f i a j = if i == j then a else f j

-- The library's `swapcontext(&from->m_ctx, &to->m_ctx)`.
abbrev pub swapcontext : ℕ → ℕ → Cpu → Cpu
swapcontext from to c = record c { saved = update c.saved from c.code; code = c.saved to }

abbrev pub set_state : ℕ → State → Cpu → Cpu
set_state f s c = record c { states = update c.states f s }

-- `Fiber::Fiber(cb, stacksize, use_caller)`: the new fiber, whose identity is the count so far.
unfoldable pub new_fiber : ℕ → Bool → Cpu → ℕ × Cpu
new_fiber cb use_caller c =
    let f = c.fiber_id + 1 in
    let first = if use_caller then start_caller f else start f in
    (
      f,
      record c {
        states = update c.states f init;
        cbs = update c.cbs f (some cb);
        saved = update c.saved f first;
        fiber_id = f;
        fiber_count = c.fiber_count + 1;
      },
    )

unfoldable pub reset : ℕ → Option ℕ → Cpu → Checked Cpu
reset f cb c =
    if is_init (c.states f) || is_over (c.states f)
    then ok (record c {
      states = update c.states f init;
      cbs = update c.cbs f cb;
      saved = update c.saved f (start f);
    })
    else aborted

unfoldable pub call : ℕ → Cpu → Cpu
call f c = swapcontext c.thread_fiber f (set_state f exec (record c { this = f }))

unfoldable pub back : ℕ → Cpu → Cpu
back f c = swapcontext f c.thread_fiber (record c { this = c.thread_fiber })

unfoldable pub swap_in : ℕ → Cpu → Checked Cpu
swap_in f c =
    if is_exec (c.states f)
    then aborted
    else ok (swapcontext c.main f (set_state f exec (record c { this = f })))

unfoldable pub swap_out : ℕ → Cpu → Cpu
swap_out f c = swapcontext f c.main (record c { this = c.main })

unfoldable pub yield_to_hold : Cpu → Checked Cpu
yield_to_hold c =
    if is_exec (c.states c.this) then ok (swap_out c.this (set_state c.this hold c)) else aborted

unfoldable pub yield_to_ready : Cpu → Checked Cpu
yield_to_ready c =
    if is_exec (c.states c.this) then swap_in c.this (set_state c.this ready c) else aborted

-- The end of `MainFunc`, and of `CallerMainFunc`: whether the callback threw.
abbrev pub ended : Bool → Cpu → Cpu
ended true c = set_state c.this except c
ended false c = record (set_state c.this term c) { cbs = update c.cbs c.this none }

unfoldable pub main_func_end : Bool → Cpu → Cpu
main_func_end threw c = swap_out c.this (ended threw c)

unfoldable pub caller_main_func_end : Bool → Cpu → Cpu
caller_main_func_end threw c = back c.this (ended threw c)
