-- ===== src/Sched/Step.antt =====
-- One round of the loop of `run`, and the end of the loop (fiber/scheduler.cpp).
use sylar_net_server_framewo.Common.{ℕ, ◌≡◌, refl, Bool, true, false, ◌||◌, Option, none, some}
use sylar_net_server_framewo.Common.Checked.{aborted}
use sylar_net_server_framewo.Sched.Defs.{
  State, init, hold, exec, term, ready, except, Scheduler, is_exec, is_over, is_init, run_step,
  let_go,
}

init-not_exec : (s : State) → is_init s ≡ true → is_exec s ≡ false
init-not_exec init h = refl
init-not_exec hold h = refl
init-not_exec exec h = cc
init-not_exec term h = refl
init-not_exec ready h = refl
init-not_exec except h = refl

-- A fiber that a callback can be put into.
abbrev pub Spare : Scheduler → Option ℕ → Type 0
Spare s none = Unit
Spare s (some f) = (is_init (s.states f) || is_over (s.states f)) ≡ true

-- A round after a fiber was left in EXCEPT, where `ft` holds the last pointer to it.
pub run_step-except :
    (resume : ℕ → Scheduler → Scheduler) (sole : ℕ → Scheduler → Bool) (me idle_fiber f : ℕ)
    (cb_fiber : Option ℕ) (s : Scheduler)
    → sole f s ≡ true
    → s.states f ≡ except
    → run_step resume sole me idle_fiber cb_fiber (some f) s ≡ aborted
unfolding run_step let_go
run_step-except resume sole me idle_fiber f cb_fiber s h e = rw (h, e) refl
