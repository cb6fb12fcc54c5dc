-- ===== src/Fibers/Runs.antt =====
-- Runs of the switches on one thread, and of the descriptor table.
use sylar_net_server_framewo.Common.{◌≡◌, refl, some, arith, ◌==◌, if◌then◌else◌}
use sylar_net_server_framewo.Common.Checked.{ok}
use sylar_net_server_framewo.Sched.Defs.{hold, exec}
use sylar_net_server_framewo.Fibers.Defs.{Cpu, start, inside, swap_in, yield_to_hold}
use sylar_net_server_framewo.Fibers.Switch.{SwappedIn, yield_to_hold-resumes}

-- The fiber 2 runs; the loop of the scheduler, in the fiber 1, swapped it in.
abbrev in_fiber : Cpu
in_fiber = record {
  code = inside 2 40;
  this = 2;
  thread_fiber = 1;
  main = 1;
  saved = λ f. if f == 1 then inside 1 30 else start f;
  states = λ f. exec;
  cbs = λ f. some f;
  fiber_id = 2;
  fiber_count = 2;
}

in_fiber-SwappedIn : SwappedIn 2 (inside 1 30) in_fiber
in_fiber-SwappedIn = record { this = refl; state = refl; loop = refl; apart = omega arith }

yield_to_hold_example :
    (c₁ : Cpu) × (c₂ : Cpu) × (yield_to_hold in_fiber ≡ ok c₁)
    × (c₁.code ≡ inside 1 30)
    × (c₁.states 2 ≡ hold)
    × (swap_in 2 c₁ ≡ ok c₂)
    × (c₂.code ≡ inside 2 40)
yield_to_hold_example = yield_to_hold-resumes 2 (inside 1 30) in_fiber in_fiber-SwappedIn
