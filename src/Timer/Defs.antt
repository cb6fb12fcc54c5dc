-- ===== src/Timer/Defs.antt =====
-- `Timer`, its comparator, `TimerManager` and their methods (timer/timer.h, timer/timer.cpp).
-- The clock, `getCurrentMS()`, is an argument `now` of each call, and the address of a new timer an
-- argument too. The locks are not modelled: a method is one step.
use sylar_net_server_framewo.Common.{
  ℕ, ◌+◌, ◌-◌, ◌%◌, ◌^◌, Bool, true, false, not, ◌&&◌, Option, none, some, List, [], ◌∷◌, ◌++◌, ltb,
  leb, ◌==◌, if◌then◌else◌,
}
use sylar_net_server_framewo.Common.Checked.{Checked, ok, undefined}

-- A callback: a plain one, or one that `addConditionTimer` guards by a weak pointer.
pub data Func : Type 0 where
  plain : ℕ → Func
  guarded : ℕ → ℕ → Func

pub record Timer : Type 0 where
  pub recurring : Bool
  pub ms : ℕ
  pub next : ℕ
  pub cb : Option Func

-- `heap` holds the timers by their addresses; `timers` is the set in its order.
pub record TimerManager : Type 0 where
  pub heap : ℕ → Timer
  pub timers : List ℕ
  pub tickled : Bool
  pub prev_time : ℕ

abbrev pub wrap : ℕ → ℕ
wrap n = n % 2 ^ 64

abbrev pub store : (ℕ → Timer) → ℕ → Timer → ℕ → Timer
store heap p t q = if q == p then t else heap q

-- `Timer(ms, cb, recurring, manager)` and `Timer(next)`.
abbrev pub new_timer : ℕ → Func → Bool → ℕ → Timer
new_timer ms cb recurring now = record {
  recurring = recurring;
  ms = ms;
  next = wrap (now + ms);
  cb = some cb;
}

abbrev pub bare_timer : ℕ → Timer
bare_timer next = record { recurring = false; ms = 0; next = next; cb = none }

-- `Comparator` on two pointers that are not null.
unfoldable pub less : (ℕ → Timer) → ℕ → ℕ → Bool
less heap lhs rhs =
    if (heap lhs).next == (heap rhs).next then ltb lhs rhs else ltb (heap lhs).next (heap rhs).next

-- `Comparator`; a null pointer comes last.
unfoldable pub comparator : (ℕ → Timer) → Option ℕ → Option ℕ → Bool
unfolding less
comparator heap none none = false
comparator heap none (some rhs) = false
comparator heap (some lhs) none = true
comparator heap (some lhs) (some rhs) = less heap lhs rhs

-- `std::set` with that comparator: what lies before the lower bound of `p`, and the rest.
unfoldable pub before : (ℕ → Timer) → ℕ → List ℕ → List ℕ
before heap p [] = []
before heap p (q ∷ qs) = if less heap q p then q ∷ before heap p qs else []

unfoldable pub from : (ℕ → Timer) → ℕ → List ℕ → List ℕ
from heap p [] = []
from heap p (q ∷ qs) = if less heap q p then from heap p qs else q ∷ qs

-- `insert` adds no key that is there.
unfoldable pub insert : (ℕ → Timer) → ℕ → List ℕ → List ℕ
insert heap p [] = p ∷ []
insert heap p (q ∷ qs) =
    if less heap q p then q ∷ insert heap p qs else if less heap p q then p ∷ q ∷ qs else q ∷ qs

-- `find(p) != end()`
abbrev found_at : (ℕ → Timer) → ℕ → List ℕ → Bool
found_at heap p [] = false
found_at heap p (q ∷ qs) = not (less heap p q)

unfoldable pub find : (ℕ → Timer) → ℕ → List ℕ → Bool
unfolding from
find heap p l = found_at heap p (from heap p l)

-- `erase(find(p))`, where `p` is found.
abbrev tail : List ℕ → List ℕ
tail [] = []
tail (q ∷ qs) = qs

unfoldable pub erase : (ℕ → Timer) → ℕ → List ℕ → List ℕ
unfolding before from
erase heap p l = before heap p l ++ tail (from heap p l)

abbrev pub is_front : ℕ → List ℕ → Bool
is_front p [] = false
is_front p (q ∷ qs) = q == p

-- `addTimer`: the timer is armed, and the flag says that `flushTimer` is called.
unfoldable pub add_timer : ℕ → ℕ → Func → Bool → ℕ → TimerManager → Bool × TimerManager
unfolding insert
add_timer p ms cb recurring now m =
    let heap = store m.heap p (new_timer ms cb recurring now) in
    let timers = insert heap p m.timers in
    (is_front p timers, record m { heap = heap; timers = timers })

-- `addTimer(val, lock)`, for a timer that is there.
unfoldable pub add_timer_ptr : ℕ → TimerManager → Bool × TimerManager
unfolding insert
add_timer_ptr p m =
    let timers = insert m.heap p m.timers in (is_front p timers, record m { timers = timers })

unfoldable pub add_condition_timer : ℕ → ℕ → ℕ → ℕ → Bool → ℕ → TimerManager → Bool × TimerManager
unfolding add_timer
add_condition_timer p ms cb cond recurring now m = add_timer p ms (guarded cond cb) recurring now m

-- Running a callback: `TimerCondCheck` locks the weak pointer first. The result is what is called.
unfoldable pub invoke : (ℕ → Bool) → Func → Option ℕ
invoke alive (plain cb) = some cb
invoke alive (guarded cond cb) = if alive cond then some cb else none

unfoldable pub cancel : ℕ → TimerManager → Bool × TimerManager
unfolding find erase
cancel p m = elim (m.heap p).cb [
  | none ↦ (false, m)
  | some f ↦
      let heap = store m.heap p (record (m.heap p) { cb = none }) in
      (
        true,
        record m {
          heap = heap;
          timers = if find heap p m.timers then erase heap p m.timers else m.timers;
        },
      )
]

-- `refresh` returns where the timer is found, and erases the end iterator where it is not.
unfoldable pub refresh : ℕ → ℕ → TimerManager → Checked (Bool × TimerManager)
unfolding find
refresh p now m = elim (m.heap p).cb [
  | none ↦ ok (false, m)
  | some f ↦ if find m.heap p m.timers then ok (false, m) else undefined
]

-- `reset` does not put the timer back.
unfoldable pub reset : ℕ → ℕ → Bool → ℕ → TimerManager → Bool × TimerManager
unfolding find erase
reset p ms from_now now m =
    let t = m.heap p in
    let start = if from_now then now else (t.next + 2 ^ 64 - t.ms) % 2 ^ 64 in
    if (ms == t.ms) && not from_now then (true, m) else elim t.cb [
      | none ↦ (false, m)
      | some f ↦
          if find m.heap p m.timers
          then (
            true,
            record m {
              heap = store m.heap p (record t { ms = ms; next = wrap (start + ms) });
              timers = erase m.heap p m.timers;
            },
          )
          else (false, m)
    ]

unfoldable pub get_next_timer : ℕ → TimerManager → ℕ × TimerManager
get_next_timer now m =
    let m' = record m { tickled = false } in
    elim m.timers [
      | [] ↦ (0, m')
      | p ∷ ps ↦ (if leb now (m.heap p).next then (m.heap p).next - now else 0, m')
    ]

-- `while(it != end && (*it)->m_next == cur_ms) ++it`, what is passed and what is left.
unfoldable pub due_now : (ℕ → Timer) → ℕ → List ℕ → List ℕ
due_now heap now [] = []
due_now heap now (q ∷ qs) = if (heap q).next == now then q ∷ due_now heap now qs else []

unfoldable pub not_due : (ℕ → Timer) → ℕ → List ℕ → List ℕ
not_due heap now [] = []
not_due heap now (q ∷ qs) = if (heap q).next == now then not_due heap now qs else q ∷ qs

-- The loop over the expired timers.
unfoldable pub fire : ℕ → List ℕ → TimerManager → List (Option Func) × TimerManager
unfolding insert
fire now [] m = ([], m)
fire now (p ∷ ps) m =
    let t = m.heap p in
    let again = store m.heap p (record t { next = wrap (now + t.ms) }) in
    let m' =
      if t.recurring
      then record m { heap = again; timers = insert again p m.timers }
      else record m { heap = store m.heap p (record t { cb = none }) } in
    let (cbs, m'') = fire now ps m' in (t.cb ∷ cbs, m'')

-- `listExpiredCb`, with `probe` the address of its local timer.
unfoldable pub list_expired_cb : ℕ → ℕ → TimerManager → List (Option Func) × TimerManager
unfolding before from due_now not_due fire
list_expired_cb probe now m = elim m.timers [
  | [] ↦ ([], m)
  | t ∷ ts ↦
      let heap = store m.heap probe (bare_timer now) in
      let rest = from heap probe (t ∷ ts) in
      let expired = before heap probe (t ∷ ts) ++ due_now heap now rest in
      fire now expired (record m { timers = not_due heap now rest })
]

-- `m_prevTime - 60 * 60 * 1000` wraps around below an hour.
unfoldable pub detect_clock_rollover : ℕ → TimerManager → Bool × TimerManager
detect_clock_rollover now m = (
  ltb now m.prev_time && ltb now ((m.prev_time + 2 ^ 64 - 3600000) % 2 ^ 64),
  record m { prev_time = now },
)

unfoldable pub has_timer : TimerManager → Bool
has_timer m = elim m.timers [ [] ↦ false | t ∷ ts ↦ true ]
