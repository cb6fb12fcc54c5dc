-- ===== src/Poller/Contexts.antt =====
-- What the contexts of an `EventPoller` hold, and the effect of `triggerEvent` on them
-- (eventpoller/eventpoller.cpp).
use sylar_net_server_framewo.Common.{
  subst, ℕ, zero, suc, ◌+◌, ◌-◌, ◌<◌, ◌≡◌, refl, ap, ◌∙◌, Bool, true, false, none, some, List, [],
  ◌∷◌, arith, ◌==◌, if◌then◌else◌, length, get_elem?, set, All,
}
use sylar_net_server_framewo.Common.Checked.{ok}
use sylar_net_server_framewo.Poller.Defs.{
  Event, read, write, Mask, no_events, test, without, EventContext, empty_context, FdContext,
  get_context, set_context, Task, callback, fiber_task, EventPoller, put, trigger_event,
  trigger_and_count,
}

-- The event context that waits to run `t`.
abbrev pub context_of : Task → EventContext
context_of (callback s f) = record { scheduler = some s; fiber = none; cb = some f }
context_of (fiber_task s f) = record { scheduler = some s; fiber = some f; cb = none }

-- An event that is set has a continuation, and one that is not set has none.
abbrev pub Holds : Bool → EventContext → Type 0
Holds true e = (t : Task) × (e ≡ context_of t)
Holds false e = e ≡ empty_context

abbrev pub FdOk : FdContext → Type 0
FdOk c = Holds c.events.reads c.read_context × Holds c.events.writes c.write_context

abbrev pub one_if : Bool → ℕ
one_if true = 1
one_if false = 0

abbrev pub weight : FdContext → ℕ
weight c = one_if c.events.reads + one_if c.events.writes

-- The number of events that are set.
abbrev pub set_events : List FdContext → ℕ
set_events [] = 0
set_events (c ∷ cs) = weight c + set_events cs

abbrev pub events_at : List FdContext → ℕ → Mask
events_at [] fd = no_events
events_at (c ∷ cs) zero = c.events
events_at (c ∷ cs) (suc fd) = events_at cs fd

pub set_events-set :
    (cs : List FdContext) (i : ℕ) (c c' : FdContext)
    → get_elem? cs i ≡ some c
    → set_events (set cs i c') + weight c ≡ set_events cs + weight c'
set_events-set [] i c c' h = cc
set_events-set (x ∷ cs) zero c c' h = let e : x ≡ c = cc in omega (arith, ap weight e)
set_events-set (x ∷ cs) (suc i) c c' h = omega (arith, set_events-set cs i c c' h)

pub events_at-set :
    (cs : List FdContext) (i g : ℕ) (c c' : FdContext)
    → get_elem? cs i ≡ some c
    → events_at (set cs i c') g ≡ (if i == g then c'.events else events_at cs g)
events_at-set [] i g c c' h = cc
events_at-set (x ∷ cs) zero zero c c' h = refl
events_at-set (x ∷ cs) zero (suc g) c c' h = ground arith
events_at-set (x ∷ cs) (suc i) zero c c' h = ground arith
events_at-set (x ∷ cs) (suc i) (suc g) c c' h = ground (arith, events_at-set cs i g c c' h)

pub events_at-get :
    (cs : List FdContext) (i : ℕ) (c : FdContext)
    → get_elem? cs i ≡ some c
    → events_at cs i ≡ c.events
events_at-get [] i c h = cc
events_at-get (x ∷ cs) zero c h = let e : x ≡ c = cc in ap (λ y. y.events) e
events_at-get (x ∷ cs) (suc i) c h = events_at-get cs i c h

pub get-set_self :
    (cs : List FdContext) (i : ℕ) (c c' : FdContext)
    → get_elem? cs i ≡ some c
    → get_elem? (set cs i c') i ≡ some c'
get-set_self [] i c c' h = cc
get-set_self (x ∷ cs) zero c c' h = refl
get-set_self (x ∷ cs) (suc i) c c' h = get-set_self cs i c c' h

pub All-get :
    (cs : List FdContext) (i : ℕ) (c : FdContext) → All FdOk cs → get_elem? cs i ≡ some c → FdOk c
All-get [] i c a h = cc
All-get (x ∷ cs) zero c a h = let e : x ≡ c = cc in subst FdOk e a.0
All-get (x ∷ cs) (suc i) c a h = All-get cs i c a.1 h

pub All-set :
    (cs : List FdContext) (i : ℕ) (c' : FdContext) → All FdOk cs → FdOk c' → All FdOk (set cs i c')
All-set [] i c' a h = tt
All-set (x ∷ cs) zero c' a h = (h, a.1)
All-set (x ∷ cs) (suc i) c' a h = (a.0, All-set cs i c' a.1 h)

pub get_elem?-lt :
    (cs : List FdContext) (i : ℕ) → i < length cs → (c : FdContext) × (get_elem? cs i ≡ some c)
get_elem?-lt [] i h = absurd (omega arith)
get_elem?-lt (x ∷ cs) zero h = (x, refl)
get_elem?-lt (x ∷ cs) (suc i) h = get_elem?-lt cs i (omega arith)

-- The event is set no more and its context is empty.
abbrev pub disarm : FdContext → Event → FdContext
disarm c event = set_context (record c { events = without c.events event }) event empty_context

pub disarm-FdOk : (c : FdContext) (event : Event) → FdOk c → FdOk (disarm c event)
disarm-FdOk c read h = (refl, h.1)
disarm-FdOk c write h = (h.0, refl)

pub disarm-events :
    (c : FdContext) (event : Event) → (disarm c event).events ≡ without c.events event
disarm-events c read = refl
disarm-events c write = refl

pub weight-disarm :
    (c : FdContext) (event : Event)
    → test c.events event ≡ true
    → weight (disarm c event) + 1 ≡ weight c
weight-disarm c read h = ground arith
weight-disarm c write h = ground arith

pub held :
    (c : FdContext) (event : Event)
    → FdOk c
    → test c.events event ≡ true
    → (t : Task) × (get_context c event ≡ context_of t)
held c read h e = (subst (λ b. Holds b c.read_context) e h.0)
held c write h e = (subst (λ b. Holds b c.write_context) e h.1)

pub trigger_event-held :
    (c : FdContext) (event : Event) (t : Task)
    → test c.events event ≡ true
    → get_context c event ≡ context_of t
    → trigger_event c event ≡ ok (t ∷ [], disarm c event)
unfolding trigger_event
trigger_event-held c read (callback s f) e h = ground (arith, e, h)
trigger_event-held c read (fiber_task s f) e h = ground (arith, e, h)
trigger_event-held c write (callback s f) e h = ground (arith, e, h)
trigger_event-held c write (fiber_task s f) e h = ground (arith, e, h)

-- The part of the invariant that every single step keeps.
pub record Core (p : EventPoller) : Type 0 where
  pub counted : p.pending ≡ set_events p.contexts
  pub fine : All FdOk p.contexts

-- What triggering one event does.
pub record Triggered (fd : ℕ) (event : Event) (t : Task) (p : EventPoller) (c : FdContext)
    (p' : EventPoller) : Type 0 where
  pub core : Core p'
  pub here : get_elem? p'.contexts fd ≡ some (disarm c event)
  pub events :
      (g : ℕ)
      → events_at p'.contexts g
        ≡ (if fd == g then without c.events event else events_at p.contexts g)
  pub scheduled : p'.scheduled ≡ t ∷ p.scheduled
  pub log : p'.log ≡ p.log
  pub pending : p'.pending + 1 ≡ p.pending

module _ (fd : ℕ) (event : Event) (t : Task) (p : EventPoller) (c : FdContext) (v : Core p)
    (e : get_elem? p.contexts fd ≡ some c) (on : test c.events event ≡ true)
    (h : get_context c event ≡ context_of t) where
  triggered : EventPoller
  triggered = record (put p fd (disarm c event)) {
    pending = p.pending - 1;
    scheduled = t ∷ p.scheduled;
  }

  pub trigger_and_count-Triggered :
      (p' : EventPoller) × (trigger_and_count fd event p c ≡ ok p') × Triggered fd event t p c p'
  unfolding trigger_and_count triggered
  trigger_and_count-Triggered = (
    triggered,
    rw (trigger_event-held c event t on h) refl,
    record {
      core = record {
        counted = omega (
          arith,
          v.counted,
          set_events-set p.contexts fd c (disarm c event) e,
          weight-disarm c event on,
        );
        fine =
            All-set p.contexts fd (disarm c event) v.fine
              (disarm-FdOk c event (All-get p.contexts fd c v.fine e));
      };
      here = get-set_self p.contexts fd c (disarm c event) e;
      events = λ g.
          events_at-set p.contexts fd g c (disarm c event) e
          ∙ ap (λ m. if fd == g then m else events_at p.contexts g) (disarm-events c event);
      scheduled = refl;
      log = refl;
      pending = omega (
        arith,
        v.counted,
        set_events-set p.contexts fd c (disarm c event) e,
        weight-disarm c event on,
      );
    },
  )
