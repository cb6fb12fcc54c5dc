-- ===== src/Timer/Runs.antt =====
-- Runs of the timers on a concrete heap.
use sylar_net_server_framewo.Common.{
  ℕ, ◌≡◌, refl, false, ◌||◌, some, [], ◌∷◌, map, ◌==◌, if◌then◌else◌,
}
use sylar_net_server_framewo.Timer.Defs.{
  Timer, TimerManager, plain, new_timer, less, add_timer, is_front, list_expired_cb,
}
use sylar_net_server_framewo.Timer.Order.{IsSorted}
use sylar_net_server_framewo.Timer.Sets.{has}
use sylar_net_server_framewo.Timer.Expire.{rearmed, list_expired_cb-Fired}
use sylar_net_server_framewo.Timer.Due.{due}
use sylar_net_server_framewo.Timer.Manage.{add_timer-adds}

-- The timer at the address 1 is due at 110, the others at 150.
abbrev timers_heap : ℕ → Timer
timers_heap p = record {
  recurring = p == 1;
  ms = 50;
  next = if p == 1 then 110 else 150;
  cb = some (plain p);
}

abbrev two_timers : TimerManager
two_timers = record { heap = timers_heap; timers = 1 ∷ 2 ∷ []; tickled = false; prev_time = 120 }

two_timers-IsSorted : IsSorted timers_heap (1 ∷ 2 ∷ [])
unfolding less
two_timers-IsSorted = ((refl, tt), (tt, tt))

list_expired_cb_example :
    let fired = due timers_heap 120 (1 ∷ 2 ∷ []) in
    let r = list_expired_cb 9 120 two_timers in
    (r.0 ≡ map (λ p. (timers_heap p).cb) fired)
    × IsSorted r.1.heap r.1.timers
    × ((q : ℕ) → r.1.heap q ≡ (if has q fired then rearmed 120 (timers_heap q) else timers_heap q))
    × ((q : ℕ)
        → has q r.1.timers
          ≡ (if has q fired then (timers_heap q).recurring else has q (1 ∷ 2 ∷ [])))
list_expired_cb_example = list_expired_cb-Fired 9 120 two_timers two_timers-IsSorted refl

add_timer_example :
    let r = add_timer 3 5 (plain 7) false 100 two_timers in
    IsSorted r.1.heap r.1.timers
    × ((q : ℕ) → has q r.1.timers ≡ ((q == 3) || has q (1 ∷ 2 ∷ [])))
    × (r.1.heap 3 ≡ new_timer 5 (plain 7) false 100)
    × (r.0 ≡ is_front 3 r.1.timers)
add_timer_example = add_timer-adds 3 5 (plain 7) false 100 two_timers two_timers-IsSorted refl
