-- ===== src/Poller/Remove.antt =====
-- `delEvent` and `cancelEvent` (eventpoller/eventpoller.cpp), on every branch.
use sylar_net_server_framewo.Common.{
  ℕ, zero, suc, ◌+◌, ◌-◌, ◌≡◌, refl, ap, ◌∙◌, sym, inl, inr, Bool, true, false, ◌&&◌, some, List,
  [], ◌∷◌, ◌++◌, arith, leb, ◌==◌, if◌then◌else◌, length, get_elem?, Bool-cases,
}
use sylar_net_server_framewo.Common.Checked.{Checked, ok, undefined}
use sylar_net_server_framewo.Poller.Defs.{
  Event, read, write, test, without, FdContext, get_context, Task, EventPoller, put, ctl_without,
  del_event_at, del_event, cancel_event_at, cancel_event, find_context, with_context,
}
use sylar_net_server_framewo.Poller.Contexts.{
  disarm-events, context_of, events_at, set_events-set, events_at-set, events_at-get, All-get,
  All-set, disarm, disarm-FdOk, weight-disarm, held, Core, trigger_and_count-Triggered,
}
use sylar_net_server_framewo.Poller.Steps.{with_context-some}
use sylar_net_server_framewo.Poller.Resize.{interest, Inv}

-- What taking an event away does, and which tasks it hands over.
pub record Removed (fd : ℕ) (event : Event) (ts : List Task) (p p' : EventPoller) : Type 0 where
  pub inv : Inv p'
  pub events :
      (g : ℕ)
      → events_at p'.contexts g
        ≡ (if fd == g then without (events_at p.contexts fd) event else events_at p.contexts g)
  pub scheduled : p'.scheduled ≡ ts ++ p.scheduled
  pub pending : p'.pending + 1 ≡ p.pending

-- A descriptor with an event has a context.
pub in_range :
    (cs : List FdContext) (fd : ℕ) (event : Event)
    → test (events_at cs fd) event ≡ true
    → (c : FdContext) × (get_elem? cs fd ≡ some c)
      × (test c.events event ≡ true)
      × (leb (length cs) fd ≡ false)
in_range [] fd read h = cc
in_range [] fd write h = cc
in_range (c ∷ cs) zero event h = (c, refl, h, ground arith)
in_range (c ∷ cs) (suc fd) event h =
    let (d, e, on, l) = in_range cs fd event h in (d, e, on, ground arith)

-- What the methods share: past the look-up of a context their end is undefined.
pub find_context-undefined :
    (p : EventPoller) (fd : ℕ) (body : FdContext → Checked (Bool × EventPoller)) (c : FdContext)
    (r : Bool × EventPoller)
    → get_elem? p.contexts fd ≡ some c
    → leb (length p.contexts) fd ≡ false
    → body c ≡ ok r
    → find_context p fd body ≡ undefined
find_context-undefined p fd body c r e inside h =
    let q : with_context p fd body ≡ ok r = with_context-some p fd body c e ∙ h in
    rw (inside, q) refl

module _ (fd : ℕ) (event : Event) (p : EventPoller) (v : Inv p)
    (on : test (events_at p.contexts fd) event ≡ true) where
  -- From the parts: the log has the call that leaves the other events.
  removed :
      (c : FdContext)
      → get_elem? p.contexts fd ≡ some c
      → (q p' : EventPoller) → q.log ≡ ctl_without fd (without c.events event) ∷ p.log
      → Core p'
      → ((g : ℕ)
          → events_at p'.contexts g
            ≡ (if fd == g then without c.events event else events_at p.contexts g))
      → p'.log ≡ q.log
      → {ts : List Task} → p'.scheduled ≡ ts ++ p.scheduled
      → p'.pending + 1 ≡ p.pending
      → Removed fd event ts p p'
  removed c e q p' eq core events log scheduled pending = record {
    inv = record {
      core = core;
      synced = λ g.
          ap (λ l. interest l g) (log ∙ eq)
          ∙ ap (λ m. if fd == g then without c.events event else m) (v.synced g)
          ∙ sym (events g);
    };
    events = λ g.
        events g
        ∙ ap (λ m. if fd == g then without m event else events_at p.contexts g)
            (sym (events_at-get p.contexts fd c e));
    scheduled = scheduled;
    pending = pending;
  }

  -- The context of the event, with its continuation.
  found :
      (c : FdContext) × (t : Task) × (get_elem? p.contexts fd ≡ some c)
      × (test c.events event ≡ true)
      × (get_context c event ≡ context_of t)
      × (leb (length p.contexts) fd ≡ false)
  found =
      let (c, e, on', l) = in_range p.contexts fd event on in
      let (t, h) = held c event (All-get p.contexts fd c v.core.fine e) on' in (c, t, e, on', h, l)

  -- `cancelEvent` of an event that is set, where `epoll_ctl` succeeds: the body behind the look-up of
  -- the context comes to true, schedules the event's continuation and nothing else, and unsets the
  -- event; but `m_mtx` was released by hand before the body, so that the lock releases it once more at
  -- the end, and the method as a whole is undefined.
  pub cancel_event_at-Removed :
      (c : FdContext) (t : Task)
      → get_elem? p.contexts fd ≡ some c
      → get_context c event ≡ context_of t
      → (p' : EventPoller) × (cancel_event_at fd event true p c ≡ ok (true, p'))
        × Removed fd event (t ∷ []) p p'
        × (cancel_event fd event true p ≡ undefined)
  unfolding cancel_event cancel_event_at
  cancel_event_at-Removed c t e h =
      let left = without c.events event in
      let logged = record p { log = ctl_without fd left ∷ p.log } in
      let (_, _, _, l) = in_range p.contexts fd event on in
      let on' : test c.events event ≡ true =
        ap (λ m. test m event) (sym (events_at-get p.contexts fd c e)) ∙ on in
      let core : Core logged = record { counted = v.core.counted; fine = v.core.fine } in
      let (p', f, r) = trigger_and_count-Triggered fd event t logged c core e on' h in
      let body : cancel_event_at fd event true p c ≡ ok (true, p') = rw (on', f) refl in
      (
        p',
        body,
        removed c e logged p' refl r.core r.events r.log r.scheduled r.pending,
        find_context-undefined p fd _ c (true, p') e l body,
      )

  -- The same for `delEvent`: the continuation is dropped and nothing is scheduled.
  pub del_event_at-Removed :
      (c : FdContext)
      → get_elem? p.contexts fd ≡ some c
      → (p' : EventPoller) × (del_event_at fd event true p c ≡ ok (true, p'))
        × Removed fd event [] p p'
        × (del_event fd event true p ≡ undefined)
  unfolding del_event del_event_at
  del_event_at-Removed c e =
      let (_, _, _, l) = in_range p.contexts fd event on in
      let on' : test c.events event ≡ true =
        ap (λ m. test m event) (sym (events_at-get p.contexts fd c e)) ∙ on in
      let c' = disarm c event in
      let logged = record p { log = ctl_without fd (without c.events event) ∷ p.log } in
      let p' = record (put p fd c') {
        pending = p.pending - 1;
        log = ctl_without fd (without c.events event) ∷ p.log;
      } in
      let left : p.pending - 1 + 1 ≡ p.pending =
        omega
          (arith, v.core.counted, set_events-set p.contexts fd c c' e, weight-disarm c event on') in
      let body : del_event_at fd event true p c ≡ ok (true, p') = rw on' refl in
      (
        p',
        body,
        removed c e logged p' refl
            (record {
              counted = omega (
                arith,
                v.core.counted,
                set_events-set p.contexts fd c c' e,
                weight-disarm c event on',
              );
              fine =
                  All-set p.contexts fd c' v.core.fine
                    (disarm-FdOk c event (All-get p.contexts fd c v.core.fine e));
            })
            (λ g.
              events_at-set p.contexts fd g c c' e
              ∙ ap (λ m. if fd == g then m else events_at p.contexts g) (disarm-events c event))
            refl refl left,
        find_context-undefined p fd _ c (true, p') e l body,
      )

-- Past the table both methods answer false, and within it the body does for an event that is not set
-- or a failing `epoll_ctl`; nothing changes.
pub remove_refused :
    (fd : ℕ) (event : Event) (p : EventPoller) (ctl_ok : Bool)
    → (leb (length p.contexts) fd ≡ true
        → (cancel_event fd event ctl_ok p ≡ ok (false, p))
          × (del_event fd event ctl_ok p ≡ ok (false, p)))
      × ((c : FdContext)
          → (test c.events event && ctl_ok) ≡ false
          → (cancel_event_at fd event ctl_ok p c ≡ ok (false, p))
            × (del_event_at fd event ctl_ok p c ≡ ok (false, p)))
unfolding cancel_event cancel_event_at del_event del_event_at
remove_refused fd event p ctl_ok = (
  (λ out. (rw out refl, rw out refl)),
  (λ c h. elim (Bool-cases (test c.events event)) [
    | inl on ↦ let bad : ctl_ok ≡ false = ground arith in (rw (on, bad) refl, rw (on, bad) refl)
    | inr off ↦ (rw off refl, rw off refl)
  ]),
)
