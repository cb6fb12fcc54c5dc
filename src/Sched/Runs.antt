-- ===== src/Sched/Runs.antt =====
-- Runs of the scheduler and of the load counter.
use sylar_net_server_framewo.Common.{
  ℕ, ◌≡◌, ◌≤◌, refl, Bool, true, false, none, some, List, [], ◌∷◌, arith, ◌==◌, if◌then◌else◌,
  length,
}
use sylar_net_server_framewo.Common.Checked.{ok}
use sylar_net_server_framewo.Sched.Defs.{init, hold, FiberTask, Scheduler, Picked, pick, is_init}
use sylar_net_server_framewo.Sched.Pick.{Search, pick-Search}
use sylar_net_server_framewo.Sched.Load.{
  LoadCounter, get_load, get_load-percent, percent, slept_until, worked_until,
}

abbrev for_thread : ℕ → FiberTask
for_thread t = record { fiber = none; cb = some 5; thread = some t }

abbrev for_any : FiberTask
for_any = record { fiber = some 4; cb = none; thread = none }

abbrev queue : List FiberTask
queue = for_thread 2 ∷ for_any ∷ for_thread 1 ∷ []

abbrev busy_scheduler : Scheduler
busy_scheduler = record {
  fibers = queue;
  active = 1;
  idle_threads = 0;
  running = true;
  auto_stop = false;
  states = λ f. if f == 3 then init else hold;
  cbs = λ f. none;
  next = 9;
  tickles = 0;
}

pick_example :
    (r : Picked) × (pick 1 busy_scheduler.states queue ≡ ok r)
    × Search 1 busy_scheduler.states queue r
pick_example = pick-Search 1 busy_scheduler.states queue (refl, (refl, (refl, tt)))

-- Nobody else holds the fiber of the round before, which has not started.
abbrev not_started : ℕ → Scheduler → Bool
not_started f s = is_init (s.states f)

abbrev counter : LoadCounter
counter = record {
  sleeping = false;
  max_size = 10;
  last_wake = 80;
  last_sleep = 50;
  records = record { sleep = false; duration = 50 } ∷ record { sleep = true; duration = 30 } ∷ [];
}

get_load_example :
    (get_load 100 counter ≡ (
      if length counter.records == 0
      then 0
      else percent (slept_until 100 counter) (worked_until 100 counter)))
    × (get_load 100 counter ≤ 100)
get_load_example =
    get_load-percent 100 counter (omega arith) (omega arith) (omega arith) (omega arith)
