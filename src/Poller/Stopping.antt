-- ===== src/Poller/Stopping.antt =====
-- When `EventPoller` may stop, and how long `idle` waits (eventpoller/eventpoller.cpp).
use sylar_net_server_framewo.Common.{
  inr, ◌⊎◌, inl, ℕ, ◌^◌, ◌-◌, ◌≤◌, ◌≡◌, refl, Bool, false, ◌&&◌, [], arith, tests, ltb, ◌==◌,
  if◌then◌else◌, Bool-cases,
}
use sylar_net_server_framewo.Timer.Defs.{TimerManager, get_next_timer}
use sylar_net_server_framewo.Poller.Defs.{EventPoller}
use sylar_net_server_framewo.Sched.Defs.{Scheduler, stopping}

-- `stopping(timeout)`: the answer, the timeout and the timers.
unfoldable pub stopping_with : ℕ → TimerManager → EventPoller → Scheduler → Bool × ℕ × TimerManager
stopping_with now m p s =
    let r = get_next_timer now m in
    ((p.pending == 0) && (r.0 == 2 ^ 64 - 1) && stopping s, r.0, r.1)

-- The time that `idle` hands to `epoll_wait`, from what `stopping` left in `next_timeout`.
unfoldable pub wait_time : ℕ → ℕ
wait_time timeout = if timeout == 0 then 3000 else if ltb 3000 timeout then 3000 else timeout

-- Without a timer the poller never stops, whatever is pending and whatever the scheduler answers: the
-- loop of `idle` goes round again, with the longest wait.
pub stopping_with-never :
    (now : ℕ) (m : TimerManager) (p : EventPoller) (s : Scheduler)
    → m.timers ≡ []
    → ((stopping_with now m p s).0 ≡ false) × (wait_time (stopping_with now m p s).1 ≡ 3000)
unfolding stopping_with wait_time get_next_timer
stopping_with-never now m p s none_left = elim (Bool-cases (p.pending == 0)) [
  | inl z ↦ rw (none_left, z) (refl, refl)
  | inr n ↦ rw (none_left, n) (refl, refl)
]

-- A wait is at least one millisecond and at most the limit, and no longer than the next timer allows.
pub wait_time-bounds :
    (timeout : ℕ)
    → (1 ≤ wait_time timeout)
      × (wait_time timeout ≤ 3000)
      × ((timeout ≡ 0) ⊎ (wait_time timeout ≤ timeout))
unfolding wait_time
wait_time-bounds timeout = elim (Bool-cases (timeout == 0)) [
  | inl z ↦ rw z (omega arith, omega arith, inl (ground arith))
  | inr n ↦ elim (Bool-cases (ltb 3000 timeout)) [
    | inl l ↦ rw (n, l) (omega arith, omega arith, inr (omega tests))
    | inr l ↦ rw (n, l) (ground arith, omega tests, inr (omega arith))
  ]
]
