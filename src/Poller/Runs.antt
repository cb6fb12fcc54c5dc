-- ===== src/Poller/Runs.antt =====
-- Runs of the poller on concrete tables.
use sylar_net_server_framewo.Common.{
  inr, zero, suc, suc, ℕ, ◌≡◌, refl, true, false, none, some, [], ◌∷◌, arith,
}
use sylar_net_server_framewo.Common.Checked.{ok, undefined}
use sylar_net_server_framewo.Timer.Defs.{TimerManager, new_timer, plain}
use sylar_net_server_framewo.Sched.Defs.{Scheduler, init}
use sylar_net_server_framewo.Poller.Defs.{
  read, Mask, no_events, FdContext, new_fd_context, callback, fiber_task, ctl_add, EventPoller,
  add_event, cancel_event, handle, write, cancel_event_at,
}
use sylar_net_server_framewo.Poller.Contexts.{context_of, events_at}
use sylar_net_server_framewo.Poller.Steps.{Armed, add_event-Armed}
use sylar_net_server_framewo.Poller.Resize.{Inv, interest}
use sylar_net_server_framewo.Poller.Remove.{Removed, cancel_event_at-Removed}
use sylar_net_server_framewo.Poller.Deliver.{Brought, Delivered, handle-Delivered}
use sylar_net_server_framewo.Poller.Stopping.{stopping_with, stopping_with-never, wait_time}

abbrev both : Mask
both = record { reads = true; writes = true }

-- A callback waits to read and a fiber waits to write.
abbrev pub armed_fd : FdContext
armed_fd = record {
  read_context = context_of (callback 1 5);
  write_context = context_of (fiber_task 1 6);
  fd = 1;
  events = both;
}

abbrev pub armed_poller : EventPoller
armed_poller = record {
  pending = 2;
  contexts = new_fd_context 0 ∷ armed_fd ∷ [];
  log = record { op = ctl_add; fd = 1; events = both } ∷ [];
  scheduled = [];
}

interest_of_one : (fd : ℕ) → interest armed_poller.log fd ≡ events_at armed_poller.contexts fd
interest_of_one zero = refl
interest_of_one (suc zero) = refl
interest_of_one (suc (suc fd)) = ground arith

pub armed_poller-Inv : Inv armed_poller
armed_poller-Inv = record {
  core = record {
    counted = refl;
    fine = ((refl, refl), (((callback 1 5, refl), (fiber_task 1 6, refl)), tt));
  };
  synced = interest_of_one;
}

add_event_example :
    (p' : EventPoller) × (add_event 0 read none (some 1) 7 true true armed_poller ≡ ok (true, p'))
    × Armed 0 read (fiber_task 1 7) armed_poller p'
add_event_example =
    add_event-Armed 0 read none 1 7 true armed_poller armed_poller-Inv (omega arith) refl refl

cancel_event_example :
    (p' : EventPoller) × (cancel_event_at 1 read true armed_poller armed_fd ≡ ok (true, p'))
    × Removed 1 read (callback 1 5 ∷ []) armed_poller p'
    × (cancel_event 1 read true armed_poller ≡ undefined)
cancel_event_example =
    cancel_event_at-Removed 1 read armed_poller armed_poller-Inv refl armed_fd (callback 1 5) refl
      refl

-- A hang-up brings both events.
brings_both : Brought no_events true both both
brings_both read = ((λ h. inr (refl, refl)), (λ h. refl))
brings_both write = ((λ h. inr (refl, refl)), (λ h. refl))

handle_example :
    (p' : EventPoller) × (handle 1 no_events true true armed_poller ≡ ok p')
    × Delivered 1 both armed_fd armed_poller p'
handle_example =
    handle-Delivered 1 armed_poller armed_poller-Inv armed_fd refl no_events true both (λ h. refl)
      (λ h. refl) brings_both

abbrev no_timers : TimerManager
no_timers = record {
  heap = λ p. new_timer 1 (plain p) false 0;
  timers = [];
  tickled = false;
  prev_time = 0;
}

-- A scheduler that was stopped and has nothing left to do.
abbrev stopped : Scheduler
stopped = record {
  fibers = [];
  active = 0;
  idle_threads = 0;
  running = false;
  auto_stop = true;
  states = λ f. init;
  cbs = λ f. none;
  next = 1;
  tickles = 0;
}

stopping_example :
    ((stopping_with 100 no_timers armed_poller stopped).0 ≡ false)
    × (wait_time (stopping_with 100 no_timers armed_poller stopped).1 ≡ 3000)
stopping_example = stopping_with-never 100 no_timers armed_poller stopped refl
