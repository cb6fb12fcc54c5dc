-- ===== src/Timer/Manage.antt =====
-- Arming, cancelling, re-setting and waiting for timers (timer/timer.cpp).
use sylar_net_server_framewo.Common.{
  ℕ, ◌+◌, ◌-◌, ◌%◌, ◌^◌, ◌≤◌, ◌<◌, ◌≡◌, ◌≢◌, ◌↔◌, refl, ◌∙◌, ◌⊎◌, inl, inr, Bool, true, false, not,
  ◌||◌, ◌&&◌, Option, none, some, List, [], ◌∷◌, arith, ◌==◌, if◌then◌else◌, All, Bool-cases,
}
use sylar_net_server_framewo.Common.Checked.{ok, undefined}
use sylar_net_server_framewo.Timer.Defs.{
  Timer, TimerManager, Func, store, new_timer, wrap, less, find, erase, is_front, add_timer, cancel,
  refresh, reset, get_next_timer, detect_clock_rollover,
}
use sylar_net_server_framewo.Timer.Order.{
  less-le, IsSorted, IsSorted-store, insert-IsSorted, All-map_imp,
}
use sylar_net_server_framewo.Timer.Sets.{
  has, has_false→Avoids, has-insert, find-has, has-erase, erase-IsSorted,
}

module _ (p ms : ℕ) (cb : Func) (recurring : Bool) (now : ℕ) (m : TimerManager)
    (s : IsSorted m.heap m.timers) (fresh : has p m.timers ≡ false) where
  -- `addTimer` at a fresh address: the set stays sorted, it gains the new timer and no other, and
  -- `flushTimer` is called exactly if the new timer is the first to fire.
  pub add_timer-adds :
      let r = add_timer p ms cb recurring now m in
      IsSorted r.1.heap r.1.timers
      × ((q : ℕ) → has q r.1.timers ≡ ((q == p) || has q m.timers))
      × (r.1.heap p ≡ new_timer ms cb recurring now)
      × (r.0 ≡ is_front p r.1.timers)
  unfolding add_timer
  add_timer-adds = (
    insert-IsSorted (store m.heap p (new_timer ms cb recurring now)) p m.timers
        (IsSorted-store m.heap p _ m.timers (has_false→Avoids p m.timers fresh) s),
    (λ q. has-insert _ q p m.timers),
    ground arith,
    refl,
  )

-- `find`, with a new callback stored in the timer that is looked for: the order does not look at
-- callbacks.
module _ (m : TimerManager) (p : ℕ) (s : IsSorted m.heap m.timers) where
  less-store_cb :
      (cb : Option Func) (a b : ℕ)
      → less (store m.heap p (record (m.heap p) { cb = cb })) a b ≡ less m.heap a b
  unfolding less
  less-store_cb cb a b = ground arith

  All-store_cb :
      (cb : Option Func) (a : ℕ) (ps : List ℕ)
      → All (λ q. less m.heap a q ≡ true) ps
      → All (λ q. less (store m.heap p (record (m.heap p) { cb = cb })) a q ≡ true) ps
  All-store_cb cb a ps = All-map_imp _ _ (λ q k. less-store_cb cb a q ∙ k) ps

  IsSorted-store_cb :
      (cb : Option Func) (ps : List ℕ)
      → IsSorted m.heap ps
      → IsSorted (store m.heap p (record (m.heap p) { cb = cb })) ps
  IsSorted-store_cb cb [] h = tt
  IsSorted-store_cb cb (q ∷ ps) h = (All-store_cb cb q ps h.0, IsSorted-store_cb cb ps h.1)

  -- The manager behind a `cancel` that finds a callback.
  cancelled : TimerManager
  cancelled =
      let heap = store m.heap p (record (m.heap p) { cb = none }) in
      record m {
        heap = heap;
        timers = if find heap p m.timers then erase heap p m.timers else m.timers;
      }

  cancel-some : (f : Func) → (m.heap p).cb ≡ some f → cancel p m ≡ (true, cancelled)
  unfolding cancel cancelled
  cancel-some f e = rw (e, cancel) refl

  cancelled-set :
      IsSorted cancelled.heap cancelled.timers
      × ((q : ℕ) → has q cancelled.timers ≡ (not (q == p) && has q m.timers))
  unfolding cancelled
  cancelled-set =
      let heap = store m.heap p (record (m.heap p) { cb = none }) in
      let sorted = IsSorted-store_cb none m.timers s in
      elim (Bool-cases (has p m.timers)) [
        | inl i ↦
            let f : find heap p m.timers ≡ true = find-has heap p m.timers sorted ∙ i in
            rw f (erase-IsSorted heap p m.timers sorted, λ q. has-erase heap q p m.timers sorted i)
        | inr o ↦
            let f : find heap p m.timers ≡ false = find-has heap p m.timers sorted ∙ o in
            rw f (sorted, λ q. ground (arith, o))
      ]

cancel-none : (p : ℕ) (m : TimerManager) → (m.heap p).cb ≡ none → cancel p m ≡ (false, m)
unfolding cancel
cancel-none p m e = rw (e, cancel) refl

-- `cancel` disarms a timer that has a callback: it answers true, the callback is gone, the timer is
-- in the set no more, and the set is otherwise as it was and sorted. A second call answers false
-- and changes nothing.
pub cancel-disarms :
    (m : TimerManager) (p : ℕ) (f : Func)
    → IsSorted m.heap m.timers
    → (m.heap p).cb ≡ some f
    → (m' : TimerManager) × (cancel p m ≡ (true, m'))
      × ((m'.heap p).cb ≡ none)
      × IsSorted m'.heap m'.timers
      × ((q : ℕ) → has q m'.timers ≡ (not (q == p) && has q m.timers))
      × (cancel p m' ≡ (false, m'))
cancel-disarms m p f s e =
    let m' = cancelled m p s in
    let gone : (m'.heap p).cb ≡ none = unfold cancelled in ground arith in
    (
      m',
      cancel-some m p s f e,
      gone,
      (cancelled-set m p s).0,
      (cancelled-set m p s).1,
      cancel-none p m' gone,
    )

-- `reset` of an armed timer to another period takes it out of the set and does not put it back,
-- although it answers true: the timer keeps its callback and never fires.
pub reset_disarms :
    (m : TimerManager) (p ms now : ℕ) (from_now : Bool) (f : Func)
    → IsSorted m.heap m.timers
    → (m.heap p).cb ≡ some f
    → has p m.timers ≡ true
    → ms ≢ (m.heap p).ms
    → (m' : TimerManager) × (reset p ms from_now now m ≡ (true, m'))
      × ((m'.heap p).cb ≡ some f)
      × ((m'.heap p).ms ≡ ms)
      × ((q : ℕ) → has q m'.timers ≡ (not (q == p) && has q m.timers))
unfolding reset
reset_disarms m p ms now from_now f s e i h =
    let start = if from_now then now else ((m.heap p).next + 2 ^ 64 - (m.heap p).ms) % 2 ^ 64 in
    let m' = record m {
      heap = store m.heap p (record (m.heap p) { ms = ms; next = wrap (start + ms) });
      timers = erase m.heap p m.timers;
    } in
    let other : (ms == (m.heap p).ms) ≡ false = ground arith in
    (
      m',
      ground (arith, e, other, find-has m.heap p m.timers s, i),
      ground arith,
      ground arith,
      λ q. has-erase m.heap q p m.timers s i,
    )

-- `refresh` never moves a deadline: of an armed timer it answers false and changes nothing, and of
-- a timer that has a callback and is not in the set it erases the end iterator.
pub refresh_never :
    (m : TimerManager) (p now : ℕ)
    → IsSorted m.heap m.timers
    → (refresh p now m ≡ ok (false, m)) ⊎ ((refresh p now m ≡ undefined) × (has p m.timers ≡ false))
unfolding refresh
refresh_never m p now s = go (m.heap p).cb refl
  where
    go :
        (c : Option Func)
        → (m.heap p).cb ≡ c
        → (refresh p now m ≡ ok (false, m))
          ⊎ ((refresh p now m ≡ undefined) × (has p m.timers ≡ false))
    go none e = inl (rw (e, refresh) refl)
    go (some f) e = elim (Bool-cases (has p m.timers)) [
      | inl i ↦ inl (rw (e, refresh, find-has m.heap p m.timers s ∙ i) refl)
      | inr o ↦ inr (rw (e, refresh, find-has m.heap p m.timers s ∙ o) refl, o)
    ]

All-ge :
    (heap : ℕ → Timer) (p : ℕ) (ps : List ℕ)
    → All (λ q. less heap p q ≡ true) ps
    → All (λ q. (heap p).next ≤ (heap q).next) ps
All-ge heap p ps = All-map_imp _ _ (λ q k. less-le heap p q k) ps

-- How long to wait: `getNextTimer` is 0 if no timer is armed; otherwise it is the time until the
-- earliest of the armed timers' deadlines, 0 if that has passed. It changes only the tickled flag.
pub get_next_timer-first :
    (now : ℕ) (m : TimerManager)
    → IsSorted m.heap m.timers
    → ((m.timers ≡ []) × (get_next_timer now m ≡ (0, record m { tickled = false })))
      ⊎ ((p : ℕ) × (has p m.timers ≡ true)
          × All (λ q. (m.heap p).next ≤ (m.heap q).next) m.timers
          × (get_next_timer now m ≡ ((m.heap p).next - now, record m { tickled = false })))
unfolding get_next_timer
get_next_timer-first now m s = go m.timers refl s
  where
    go :
        (l : List ℕ)
        → m.timers ≡ l
        → IsSorted m.heap l
        → ((m.timers ≡ []) × (get_next_timer now m ≡ (0, record m { tickled = false })))
          ⊎ ((p : ℕ) × (has p m.timers ≡ true)
              × All (λ q. (m.heap p).next ≤ (m.heap q).next) m.timers
              × (get_next_timer now m ≡ ((m.heap p).next - now, record m { tickled = false })))
    go [] e k = inl (e, ground (arith, e))
    go (p ∷ ps) e k =
        inr (p, rw e (ground arith), rw e (omega arith, All-ge m.heap p ps k.0), ground (arith, e))

-- A clock that went back is reported as a rollover exactly if it went back by more than an hour, or
-- went back at all before the manager's clock had reached its first hour.
pub detect_clock_rollover_iff :
    (now : ℕ) (m : TimerManager)
    → m.prev_time < 2 ^ 64
    → (((detect_clock_rollover now m).0 ≡ true)
        ↔ ((now < m.prev_time) × ((now + 3600000 < m.prev_time) ⊎ (m.prev_time < 3600000))))
      × ((detect_clock_rollover now m).1 ≡ record m { prev_time = now })
unfolding detect_clock_rollover
detect_clock_rollover_iff now m h = ((λ e. ground arith, λ e. ground arith), refl)
