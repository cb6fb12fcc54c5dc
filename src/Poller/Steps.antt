-- ===== src/Poller/Steps.antt =====
-- `addEvent` (eventpoller/eventpoller.cpp), on an event that is not set, on one that is, and past the
-- table.
use sylar_net_server_framewo.Common.{
  ◌<◌, subst, ℕ, ◌+◌, ◌≤◌, ◌≡◌, refl, ap, ◌∙◌, sym, Bool, true, false, Option, none, some, ◌∷◌,
  arith, ltb, ◌==◌, if◌then◌else◌, length, get_elem?,
}
use sylar_net_server_framewo.Common.Checked.{Checked, ok, aborted, undefined}
use sylar_net_server_framewo.Poller.Defs.{
  ctl_mod, ctl_add, Event, read, write, test, with_event, is_none, FdContext, get_context,
  set_context, Task, callback, fiber_task, Ctl, EventPoller, context_resize, put, with_context,
  armed_context, is_empty, runs, add_event_at, add_event,
}
use sylar_net_server_framewo.Poller.Contexts.{
  context_of, Holds, FdOk, weight, events_at, set_events-set, events_at-set, events_at-get,
  get-set_self, All-get, All-set, get_elem?-lt,
}
use sylar_net_server_framewo.Poller.Resize.{Inv}

-- The continuation that `addEvent` registers.
abbrev pub task_for : ℕ → Option ℕ → ℕ → Task
task_for s none self = fiber_task s self
task_for s (some f) self = callback s f

armed_context-task :
    (s self : ℕ) (cb : Option ℕ) → armed_context (some s) cb self ≡ context_of (task_for s cb self)
armed_context-task s self none = refl
armed_context-task s self (some f) = refl

-- A context with one more event.
abbrev pub arm : FdContext → Event → Task → FdContext
arm c event t = set_context (record c { events = with_event c.events event }) event (context_of t)

arm-FdOk : (c : FdContext) (event : Event) (t : Task) → FdOk c → FdOk (arm c event t)
arm-FdOk c read t h = ((t, refl), h.1)
arm-FdOk c write t h = (h.0, (t, refl))

weight-arm :
    (c : FdContext) (event : Event) (t : Task)
    → test c.events event ≡ false
    → weight (arm c event t) ≡ weight c + 1
weight-arm c read t h = ground arith
weight-arm c write t h = ground arith

empty_unless_set :
    (c : FdContext) (event : Event)
    → FdOk c
    → test c.events event ≡ false
    → is_empty (get_context c event) ≡ true
empty_unless_set c read h e = ap is_empty (subst (λ b. Holds b c.read_context) e h.0)
empty_unless_set c write h e = ap is_empty (subst (λ b. Holds b c.write_context) e h.1)

-- What arming an event does.
pub record Armed (fd : ℕ) (event : Event) (t : Task) (p p' : EventPoller) : Type 0 where
  pub inv : Inv p'
  pub context :
      (c : FdContext) × (get_elem? p'.contexts fd ≡ some c)
      × (get_context c event ≡ context_of t)
      × (test c.events event ≡ true)
  pub events :
      (g : ℕ)
      → events_at p'.contexts g
        ≡ (if fd == g then with_event (events_at p.contexts fd) event else events_at p.contexts g)
  pub scheduled : p'.scheduled ≡ p.scheduled
  pub pending : p'.pending ≡ p.pending + 1

module _ (fd : ℕ) (event : Event) (cb : Option ℕ) (s self : ℕ) (exec : Bool) (p : EventPoller)
    (v : Inv p) (runs_ok : runs cb exec ≡ true) (c : FdContext)
    (e : get_elem? p.contexts fd ≡ some c) (off : test c.events event ≡ false) where
  armed_op : Ctl
  armed_op = record {
    op = if is_none c.events then ctl_add else ctl_mod;
    fd = fd;
    events = with_event c.events event;
  }

  armed : EventPoller
  unfolding armed_op
  armed = record (put p fd (arm c event (task_for s cb self))) {
    pending = p.pending + 1;
    log = armed_op ∷ p.log;
  }

  add_event_at-eq : add_event_at fd event cb (some s) self exec true p c ≡ ok (true, armed)
  unfolding add_event_at armed
  add_event_at-eq =
      rw
        (
          off,
          empty_unless_set c event (All-get p.contexts fd c v.core.fine e) off,
          runs_ok,
          armed_context-task s self cb,
        )
        refl

  arm-events : (t : Task) → (arm c event t).events ≡ with_event c.events event
  arm-events t = elim event as (λ x. (arm c x t).events ≡ with_event c.events x) [
    | read ↦ refl
    | write ↦ refl
  ]

  arm-test : (t : Task) → test (arm c event t).events event ≡ true
  arm-test t = elim event as (λ x. test (arm c x t).events x ≡ true) [ read ↦ refl | write ↦ refl ]

  arm-context : (t : Task) → get_context (arm c event t) event ≡ context_of t
  arm-context t = elim event as (λ x. get_context (arm c x t) x ≡ context_of t) [
    | read ↦ refl
    | write ↦ refl
  ]

  armed-events :
      (g : ℕ)
      → events_at armed.contexts g
        ≡ (if fd == g then with_event c.events event else events_at p.contexts g)
  unfolding armed
  armed-events g =
      events_at-set p.contexts fd g c (arm c event (task_for s cb self)) e
      ∙ ap (λ m. if fd == g then m else events_at p.contexts g) (arm-events (task_for s cb self))

  add_event_at-Armed : Armed fd event (task_for s cb self) p armed
  add_event_at-Armed = record {
    inv = record {
      core = record {
        counted =
            unfold armed in
            omega (
              arith,
              v.core.counted,
              set_events-set p.contexts fd c (arm c event (task_for s cb self)) e,
              weight-arm c event (task_for s cb self) off,
            );
        fine =
            unfold armed in
            All-set p.contexts fd (arm c event (task_for s cb self)) v.core.fine
              (arm-FdOk c event (task_for s cb self) (All-get p.contexts fd c v.core.fine e));
      };
      synced = λ g.
          unfold armed armed_op in
          ap (λ m. if fd == g then with_event c.events event else m) (v.synced g)
          ∙ sym (armed-events g);
    };
    context = (
      arm c event (task_for s cb self),
      unfold armed in get-set_self p.contexts fd c (arm c event (task_for s cb self)) e,
      arm-context (task_for s cb self),
      arm-test (task_for s cb self),
    );
    events = λ g.
        armed-events g
        ∙ ap (λ m. if fd == g then with_event m event else events_at p.contexts g)
            (sym (events_at-get p.contexts fd c e));
    scheduled = unfold armed in refl;
    pending = unfold armed in refl;
  }

pub with_context-some {ℓ} :
    {A : Type ℓ} (p : EventPoller) (fd : ℕ) (f : FdContext → Checked A) (c : FdContext)
    → get_elem? p.contexts fd ≡ some c
    → with_context p fd f ≡ f c
with_context-some p fd f c e = rw (e, with_context) refl

module _ (fd : ℕ) (event : Event) (cb : Option ℕ) (s self : ℕ) (exec : Bool) (p : EventPoller)
    (v : Inv p) where
  -- `addEvent` of a descriptor in the table, for an event that is not set, where `epoll_ctl` succeeds
  -- and the calling fiber runs if there is no callback: it answers 0, sets the event with the callback
  -- or else the calling fiber as its continuation, counts it, keeps the invariant and touches no other
  -- event and no queue.
  pub add_event-Armed :
      fd < length p.contexts
      → runs cb exec ≡ true
      → test (events_at p.contexts fd) event ≡ false
      → (p' : EventPoller) × (add_event fd event cb (some s) self exec true p ≡ ok (true, p'))
        × Armed fd event (task_for s cb self) p p'
  unfolding add_event
  add_event-Armed inside runs_ok off =
      let (c, e) = get_elem?-lt p.contexts fd inside in
      let in_table : ltb fd (length p.contexts) ≡ true = ground arith in
      let off' : test c.events event ≡ false =
        ap (λ m. test m event) (sym (events_at-get p.contexts fd c e)) ∙ off in
      (
        armed fd event cb s self exec p v runs_ok c e off',
        rw in_table (
            with_context-some p fd _ c e
            ∙ add_event_at-eq fd event cb s self exec p v runs_ok c e off'),
        add_event_at-Armed fd event cb s self exec p v runs_ok c e off',
      )

  -- Setting an event of the table that is set already fails an assertion.
  pub add_event-twice :
      (ctl_ok : Bool)
      → fd < length p.contexts
      → test (events_at p.contexts fd) event ≡ true
      → add_event fd event cb (some s) self exec ctl_ok p ≡ aborted
  unfolding add_event add_event_at
  add_event-twice ctl_ok inside on =
      let (c, e) = get_elem?-lt p.contexts fd inside in
      let in_table : ltb fd (length p.contexts) ≡ true = ground arith in
      let on' : test c.events event ≡ true =
        ap (λ m. test m event) (sym (events_at-get p.contexts fd c e)) ∙ on in
      rw in_table (with_context-some p fd _ c e ∙ rw on' refl)

  -- A descriptor past the table: `contextResize` locks `m_mtx` a second time.
  pub add_event-grows :
      (ctl_ok : Bool)
      → length p.contexts ≤ fd
      → add_event fd event cb (some s) self exec ctl_ok p ≡ undefined
  unfolding add_event context_resize
  add_event-grows ctl_ok outside =
      let past : ltb fd (length p.contexts) ≡ false = ground arith in rw past refl
