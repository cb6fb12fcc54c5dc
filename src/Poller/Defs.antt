-- ===== src/Poller/Defs.antt =====
-- `EventPoller`, `FdContext` and their methods (eventpoller/eventpoller.h and .cpp). A method is one
-- step for the other threads; of its locks only `m_mtx` is modelled, as this thread sees it. What `epoll_ctl` answers is an argument of each call, and the
-- successful calls are logged. `Scheduler::getThis()` and `Fiber::getThis()` are arguments too.
use sylar_net_server_framewo.Common.{
  ℕ, zero, suc, ◌+◌, ◌-◌, ◌*◌, ◌/◌, Bool, true, false, not, ◌&&◌, ◌||◌, Option, none, some, List,
  [], ◌∷◌, ◌++◌, ltb, leb, if◌then◌else◌, length, get_elem?, set,
}
use sylar_net_server_framewo.Common.Checked.{Checked, ok, aborted, undefined, ◌>>=◌}
use sylar_net_server_framewo.Poller.Locks.{Held, unheld, lock_shared, unlock_shared, lock, unlock}

pub data Event : Type 0 where
  read write : Event

-- A set of events, `NONE`, `READ`, `WRITE` or both; the bits of `EPOLLIN` and `EPOLLOUT` are the same.
pub record Mask : Type 0 where
  pub reads : Bool
  pub writes : Bool

abbrev pub no_events : Mask
no_events = record { reads = false; writes = false }

abbrev pub test : Mask → Event → Bool
test m read = m.reads
test m write = m.writes

abbrev pub with_event : Mask → Event → Mask
with_event m read = record m { reads = true }
with_event m write = record m { writes = true }

abbrev pub without : Mask → Event → Mask
without m read = record m { reads = false }
without m write = record m { writes = false }

abbrev pub is_none : Mask → Bool
is_none m = not (m.reads || m.writes)

pub record EventContext : Type 0 where
  pub scheduler : Option ℕ
  pub fiber : Option ℕ
  pub cb : Option ℕ

abbrev pub empty_context : EventContext
empty_context = record { scheduler = none; fiber = none; cb = none }

pub record FdContext : Type 0 where
  pub read_context : EventContext
  pub write_context : EventContext
  pub fd : ℕ
  pub events : Mask

abbrev pub get_context : FdContext → Event → EventContext
get_context c read = c.read_context
get_context c write = c.write_context

abbrev pub set_context : FdContext → Event → EventContext → FdContext
set_context c read e = record c { read_context = e }
set_context c write e = record c { write_context = e }

abbrev pub new_fd_context : ℕ → FdContext
new_fd_context fd = record {
  read_context = empty_context;
  write_context = empty_context;
  fd = fd;
  events = no_events;
}

-- A task that is handed to a scheduler.
pub data Task : Type 0 where
  callback fiber_task : ℕ → ℕ → Task

pub data Op : Type 0 where
  ctl_add ctl_mod ctl_del : Op

pub record Ctl : Type 0 where
  pub op : Op
  pub fd : ℕ
  pub events : Mask

-- `log` and `scheduled` have the newest entry first.
pub record EventPoller : Type 0 where
  pub pending : ℕ
  pub contexts : List FdContext
  pub log : List Ctl
  pub scheduled : List Task

-- `contextResize`: contexts for the descriptors from the old size up to the new one.
unfoldable pub more_contexts : ℕ → ℕ → List FdContext
more_contexts from zero = []
more_contexts from (suc n) = new_fd_context from ∷ more_contexts (suc from) n

unfoldable pub resize_contexts : ℕ → EventPoller → EventPoller
unfolding more_contexts
resize_contexts size p =
    let n = length p.contexts in
    if leb size n then p else record p { contexts = p.contexts ++ more_contexts n (size - n) }

-- `contextResize`, from a thread that holds `m_mtx` as `held` says
unfoldable pub context_resize : Held → ℕ → EventPoller → Checked EventPoller
context_resize held size p = lock held >>= unlock >>= λ free. ok (resize_contexts size p)

abbrev pub with_context {ℓ} : {A : Type ℓ} → EventPoller → ℕ → (FdContext → Checked A) → Checked A
with_context p fd f = elim (get_elem? p.contexts fd) [ none ↦ undefined | some c ↦ f c ]

-- `addEvent` with the callback `cb`, from the fiber `self`, which is running if `exec` holds.
abbrev pub armed_context : Option ℕ → Option ℕ → ℕ → EventContext
armed_context scheduler none self = record { scheduler = scheduler; fiber = some self; cb = none }
armed_context scheduler (some f) self = record { scheduler = scheduler; fiber = none; cb = some f }

abbrev pub is_empty : EventContext → Bool
is_empty c = elim c.scheduler [
  | some s ↦ false
  | none ↦ elim c.fiber [ some f ↦ false | none ↦ elim c.cb [ some g ↦ false | none ↦ true ] ]
]

abbrev pub runs : Option ℕ → Bool → Bool
runs none exec = exec
runs (some f) exec = true

abbrev pub put : EventPoller → ℕ → FdContext → EventPoller
put p fd c = record p { contexts = set p.contexts fd c }

unfoldable pub add_event_at :
    ℕ
    → Event
    → Option ℕ
    → Option ℕ
    → ℕ
    → Bool
    → Bool
    → EventPoller
    → FdContext
    → Checked (Bool × EventPoller)
add_event_at fd event cb scheduler self exec ctl_ok p c =
    let events = with_event c.events event in
    let ctl : Ctl = record {
      op = if is_none c.events then ctl_add else ctl_mod;
      fd = fd;
      events = events;
    } in
    let c' = set_context (record c { events = events }) event (armed_context scheduler cb self) in
    if test c.events event
    then aborted
    else if not ctl_ok
    then ok (false, p)
    else if not (is_empty (get_context c event))
    then aborted
    else if not (runs cb exec)
    then aborted
    else ok (true, record (put p fd c') { pending = p.pending + 1; log = ctl ∷ p.log })

unfoldable pub add_event :
    ℕ → Event → Option ℕ → Option ℕ → ℕ → Bool → Bool → EventPoller → Checked (Bool × EventPoller)
add_event fd event cb scheduler self exec ctl_ok p =
    let here = with_context p fd (add_event_at fd event cb scheduler self exec ctl_ok p) in
    let grown = lock unheld >>= λ held. context_resize held (fd * 3 / 2) p >>= λ p'.
    with_context p' fd (add_event_at fd event cb scheduler self exec ctl_ok p') in
    lock_shared unheld >>= unlock_shared >>= λ free.
    if ltb fd (length p.contexts) then here else grown

-- The frame of `delEvent`, `cancelEvent` and `cancelAll`: `m_mtx` is released before the body, and once
-- more by the destructor of the lock at the end.
abbrev pub find_context :
    EventPoller → ℕ → (FdContext → Checked (Bool × EventPoller)) → Checked (Bool × EventPoller)
find_context p fd body =
    let found = lock_shared unheld >>= unlock_shared >>= λ free.
    with_context p fd body >>= λ r. unlock_shared free >>= λ again. ok r in
    if leb (length p.contexts) fd
    then (lock_shared unheld >>= unlock_shared >>= λ free. ok (false, p))
    else found

-- `triggerEvent`: the context's callback or else its fiber is swapped into a task.
abbrev pub handed_over : ℕ → EventContext → List Task × EventContext
handed_over s c = elim c.cb [
  | some f ↦ (callback s f ∷ [], record c { scheduler = none; cb = none })
  | none ↦ elim c.fiber [
    | some f ↦ (fiber_task s f ∷ [], record c { scheduler = none; fiber = none })
    | none ↦ ([], record c { scheduler = none })
  ]
]

unfoldable pub trigger_event : FdContext → Event → Checked (List Task × FdContext)
trigger_event c event =
    if not (test c.events event) then aborted else elim (get_context c event).scheduler [
      | none ↦ undefined
      | some s ↦
          let r = handed_over s (get_context c event) in
          ok (r.0, set_context (record c { events = without c.events event }) event r.1)
    ]

-- One event less, in the call to `epoll_ctl`.
abbrev pub ctl_without : ℕ → Mask → Ctl
ctl_without fd left = record {
  op = if is_none left then ctl_del else ctl_mod;
  fd = fd;
  events = left;
}

-- Trigger an event of `c` and count it off.
unfoldable pub trigger_and_count : ℕ → Event → EventPoller → FdContext → Checked EventPoller
trigger_and_count fd event p c = trigger_event c event >>= λ r.
    ok (record (put p fd r.1) { pending = p.pending - 1; scheduled = r.0 ++ p.scheduled })

unfoldable pub del_event_at :
    ℕ → Event → Bool → EventPoller → FdContext → Checked (Bool × EventPoller)
del_event_at fd event ctl_ok p c =
    let left = without c.events event in
    let c' = set_context (record c { events = left }) event empty_context in
    if not (test c.events event)
    then ok (false, p)
    else if not ctl_ok
    then ok (false, p)
    else ok
        (true, record (put p fd c') { pending = p.pending - 1; log = ctl_without fd left ∷ p.log })

unfoldable pub del_event : ℕ → Event → Bool → EventPoller → Checked (Bool × EventPoller)
del_event fd event ctl_ok p = find_context p fd (del_event_at fd event ctl_ok p)

unfoldable pub cancel_event_at :
    ℕ → Event → Bool → EventPoller → FdContext → Checked (Bool × EventPoller)
cancel_event_at fd event ctl_ok p c =
    let logged = record p { log = ctl_without fd (without c.events event) ∷ p.log } in
    if not (test c.events event)
    then ok (false, p)
    else if not ctl_ok
    then ok (false, p)
    else (trigger_and_count fd event logged c >>= λ p'. ok (true, p'))

unfoldable pub cancel_event : ℕ → Event → Bool → EventPoller → Checked (Bool × EventPoller)
cancel_event fd event ctl_ok p = find_context p fd (cancel_event_at fd event ctl_ok p)

-- `if(events & e) { triggerEvent(e); --m_pendingEventCount; }`
unfoldable pub trigger_if : Bool → ℕ → Event → EventPoller → Checked EventPoller
trigger_if b fd event p = if b then with_context p fd (trigger_and_count fd event p) else ok p

unfoldable pub cancel_all_at : ℕ → Bool → EventPoller → FdContext → Checked (Bool × EventPoller)
cancel_all_at fd ctl_ok p c =
    let logged = record p { log = ctl_without fd no_events ∷ p.log } in
    if is_none c.events
    then ok (false, p)
    else if not ctl_ok
    then ok (false, p)
    else (trigger_if c.events.reads fd read logged >>= λ p₁.
        trigger_if c.events.writes fd write p₁ >>= λ p₂.
        with_context p₂ fd λ c₂. if is_none c₂.events then ok (true, p₂) else aborted)

unfoldable pub cancel_all : ℕ → Bool → EventPoller → Checked (Bool × EventPoller)
cancel_all fd ctl_ok p = find_context p fd (cancel_all_at fd ctl_ok p)

-- One entry of `epoll_wait` in the loop of `idle`: `got` are the bits EPOLLIN and EPOLLOUT, and
-- `failed` says that EPOLLERR or EPOLLHUP is set.
abbrev pub real_events : Mask → Bool → Mask → Mask
real_events got failed events = record {
  reads = got.reads || (failed && events.reads);
  writes = got.writes || (failed && events.writes);
}

unfoldable pub handle_at : ℕ → Mask → Bool → Bool → EventPoller → FdContext → Checked EventPoller
handle_at fd got failed ctl_ok p c =
    let real = real_events got failed c.events in
    let left : Mask = record {
      reads = c.events.reads && not real.reads;
      writes = c.events.writes && not real.writes;
    } in
    let logged = record p { log = ctl_without fd left ∷ p.log } in
    if not ((c.events.reads && real.reads) || (c.events.writes && real.writes))
    then ok p
    else if not ctl_ok
    then ok p
    else (trigger_if real.reads fd read logged >>= λ p₁. trigger_if real.writes fd write p₁)

unfoldable pub handle : ℕ → Mask → Bool → Bool → EventPoller → Checked EventPoller
handle fd got failed ctl_ok p = with_context p fd (handle_at fd got failed ctl_ok p)
