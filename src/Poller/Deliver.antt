-- ===== src/Poller/Deliver.antt =====
-- The delivery of events in `EventPoller::idle`, and `cancelAll` (eventpoller/eventpoller.cpp).
use sylar_net_server_framewo.Common.{
  absurd_bool, ◌⊎◌, ◌↔◌, subst, ℕ, zero, suc, ◌+◌, ◌≡◌, refl, ap, ◌∙◌, sym, inl, inr, Bool, true,
  false, not, ◌&&◌, ◌||◌, none, some, List, [], ◌∷◌, ◌++◌, arith, ◌==◌, if◌then◌else◌, get_elem?,
  Bool-cases,
}
use sylar_net_server_framewo.Common.Checked.{ok}
use sylar_net_server_framewo.Poller.Defs.{
  Event, read, write, Mask, no_events, is_none, test, EventContext, FdContext, get_context, Task,
  callback, fiber_task, EventPoller, ctl_without, handed_over, trigger_if, cancel_all_at,
  real_events, handle_at, handle,
}
use sylar_net_server_framewo.Poller.Contexts.{
  disarm-events, context_of, events_at, one_if, All-get, disarm, held, Core,
  trigger_and_count-Triggered,
}
use sylar_net_server_framewo.Poller.Steps.{with_context-some}
use sylar_net_server_framewo.Poller.Resize.{interest, Inv}

-- The tasks that a context hands to its scheduler when it is triggered.
abbrev pub continuation : EventContext → List Task
continuation e = elim e.scheduler [ none ↦ [] | some s ↦ (handed_over s e).0 ]

continuation-context_of : (t : Task) → continuation (context_of t) ≡ t ∷ []
continuation-context_of (callback s f) = refl
continuation-context_of (fiber_task s f) = refl

abbrev pub due : Bool → EventContext → List Task
due true e = continuation e
due false e = []

-- The events of `m` without those of `d`.
abbrev pub minus : Mask → Mask → Mask
minus m d = record { reads = m.reads && not d.reads; writes = m.writes && not d.writes }

abbrev after : Bool → FdContext → Event → FdContext
after true c event = disarm c event
after false c event = c

record Fired (fd : ℕ) (b : Bool) (event : Event) (c : FdContext) (p p' : EventPoller) : Type 0 where
  core : Core p'
  here : get_elem? p'.contexts fd ≡ some (after b c event)
  events :
      (g : ℕ)
      → events_at p'.contexts g
        ≡ (if fd == g then (after b c event).events else events_at p.contexts g)
  scheduled : p'.scheduled ≡ due b (get_context c event) ++ p.scheduled
  log : p'.log ≡ p.log
  pending : p'.pending + one_if b ≡ p.pending

same_events :
    (cs : List FdContext) (fd g : ℕ) (c : FdContext)
    → get_elem? cs fd ≡ some c
    → events_at cs g ≡ (if fd == g then c.events else events_at cs g)
same_events [] fd g c e = cc
same_events (x ∷ cs) zero zero c e = let d : x ≡ c = cc in ap (λ y. y.events) d
same_events (x ∷ cs) zero (suc g) c e = ground arith
same_events (x ∷ cs) (suc fd) zero c e = ground arith
same_events (x ∷ cs) (suc fd) (suc g) c e = ground (arith, same_events cs fd g c e)

trigger_if-Fired :
    (fd : ℕ) (b : Bool) (event : Event) (p : EventPoller) (c : FdContext)
    → Core p
    → get_elem? p.contexts fd ≡ some c
    → (b ≡ true → test c.events event ≡ true)
    → (p' : EventPoller) × (trigger_if b fd event p ≡ ok p') × Fired fd b event c p p'
unfolding trigger_if
trigger_if-Fired fd false event p c v e on = (
  p,
  refl,
  record {
    core = v;
    here = e;
    events = λ g. same_events p.contexts fd g c e;
    scheduled = refl;
    log = refl;
    pending = omega arith;
  },
)
trigger_if-Fired fd true event p c v e on =
    let (t, h) = held c event (All-get p.contexts fd c v.fine e) (on refl) in
    let (p', f, r) = trigger_and_count-Triggered fd event t p c v e (on refl) h in
    (
      p',
      with_context-some p fd _ c e ∙ f,
      record {
        core = r.core;
        here = r.here;
        events = λ g.
            r.events g
            ∙ ap (λ m. if fd == g then m else events_at p.contexts g) (sym (disarm-events c event));
        scheduled =
            r.scheduled
            ∙ ap (λ l. l ++ p.scheduled) (sym (ap continuation h ∙ continuation-context_of t));
        log = r.log;
        pending = r.pending;
      },
    )

-- Triggering the events of `d`, the read event first.
pub record Both (fd : ℕ) (d : Mask) (c : FdContext) (p p' : EventPoller) : Type 0 where
  pub core : Core p'
  pub here :
      (c' : FdContext) × (get_elem? p'.contexts fd ≡ some c') × (c'.events ≡ minus c.events d)
  pub events :
      (g : ℕ)
      → events_at p'.contexts g ≡ (if fd == g then minus c.events d else events_at p.contexts g)
  pub scheduled :
      p'.scheduled ≡ due d.writes c.write_context ++ (due d.reads c.read_context ++ p.scheduled)
  pub log : p'.log ≡ p.log
  pub pending : p'.pending + one_if d.reads + one_if d.writes ≡ p.pending

after_both :
    (r w : Bool) (c : FdContext)
    → (after w (after r c read) write).events ≡ minus c.events (record { reads = r; writes = w })
after_both true true c = ground arith
after_both true false c = ground arith
after_both false true c = ground arith
after_both false false c = ground arith

after-read : (r : Bool) (c : FdContext) → (after r c read).write_context ≡ c.write_context
after-read true c = refl
after-read false c = refl

after-read-events : (r : Bool) (c : FdContext) → (after r c read).events.writes ≡ c.events.writes
after-read-events true c = refl
after-read-events false c = refl

pub trigger-Both :
    (fd : ℕ) (d : Mask) (p : EventPoller) (c : FdContext)
    → Core p
    → get_elem? p.contexts fd ≡ some c
    → (d.reads ≡ true → c.events.reads ≡ true)
    → (d.writes ≡ true → c.events.writes ≡ true)
    → (p₁ p₂ : EventPoller) × (trigger_if d.reads fd read p ≡ ok p₁)
      × (trigger_if d.writes fd write p₁ ≡ ok p₂)
      × Both fd d c p p₂
trigger-Both fd d p c v e r_on w_on =
    let (p₁, f, r) = trigger_if-Fired fd d.reads read p c v e r_on in
    let (p₂, g, w) =
      trigger_if-Fired fd d.writes write p₁ (after d.reads c read) r.core r.here
        (λ on. after-read-events d.reads c ∙ w_on on) in
    let left = after_both d.reads d.writes c in
    (
      p₁,
      p₂,
      f,
      g,
      record {
        core = w.core;
        here = (after d.writes (after d.reads c read) write, w.here, left);
        events = λ x. let a = w.events x in let b = r.events x in ground (arith, a, b, left);
        scheduled =
            w.scheduled
            ∙ ap (λ k. due d.writes k ++ p₁.scheduled) (after-read d.reads c)
            ∙ ap (λ l. due d.writes c.write_context ++ l) r.scheduled;
        log = w.log ∙ r.log;
        pending = omega (arith, w.pending, r.pending);
      },
    )

-- What the delivery of the events `d` does.
pub record Delivered (fd : ℕ) (d : Mask) (c : FdContext) (p p' : EventPoller) : Type 0 where
  pub inv : Inv p'
  pub events :
      (g : ℕ)
      → events_at p'.contexts g ≡ (if fd == g then minus c.events d else events_at p.contexts g)
  pub scheduled :
      p'.scheduled ≡ due d.writes c.write_context ++ (due d.reads c.read_context ++ p.scheduled)
  pub pending : p'.pending + one_if d.reads + one_if d.writes ≡ p.pending

delivered :
    (fd : ℕ) (d : Mask) (c : FdContext) (p p' : EventPoller)
    → Inv p
    → Both fd d c (record p { log = ctl_without fd (minus c.events d) ∷ p.log }) p'
    → Delivered fd d c p p'
delivered fd d c p p' v b = record {
  inv = record {
    core = b.core;
    synced = λ g.
        ap (λ l. interest l g) b.log
        ∙ ap (λ m. if fd == g then minus c.events d else m) (v.synced g)
        ∙ sym (b.events g);
  };
  events = b.events;
  scheduled = b.scheduled;
  pending = b.pending;
}

nothing_real :
    (e d : Mask)
    → (d.reads ≡ true → e.reads ≡ true)
    → (d.writes ≡ true → e.writes ≡ true)
    → ((e.reads && d.reads) || (e.writes && d.writes)) ≡ false
    → (d.reads ≡ false) × (d.writes ≡ false)
nothing_real e d r w h = elim (Bool-cases d.reads) [
  | inl a ↦ let b = r a in ground arith
  | inr a ↦ elim (Bool-cases d.writes) [ inl c ↦ let b = w c in ground arith | inr c ↦ (a, c) ]
]

real-subset :
    (got failed e : Bool) → (got ≡ true → e ≡ true) → (got || (failed && e)) ≡ true → e ≡ true
real-subset true failed e h on = h refl
real-subset false true e h on = on
real-subset false false e h on = cc

pub unchanged :
    (fd : ℕ) (d : Mask) (c : FdContext) (p : EventPoller)
    → Inv p
    → get_elem? p.contexts fd ≡ some c
    → d.reads ≡ false
    → d.writes ≡ false
    → Delivered fd d c p p
unchanged fd d c p v e r w = record {
  inv = v;
  events = λ g.
      let a = same_events p.contexts fd g c e in
      let m : minus c.events d ≡ c.events = ground arith in
      a ∙ ap (λ x. if fd == g then x else events_at p.contexts g) (sym m);
  scheduled = ground arith;
  pending = ground arith;
}

-- The events that an entry of `epoll_wait` brings: those that it reports, and where it reports an error
-- or a hang-up also all that are set.
abbrev pub Brought : Mask → Bool → Mask → Mask → Type 0
Brought got failed events d =
    (event : Event)
    → (test d event ≡ true)
      ↔ ((test got event ≡ true) ⊎ (failed ≡ true) × (test events event ≡ true))

same_bool : (a b : Bool) → (a ≡ true → b ≡ true) → (b ≡ true → a ≡ true) → a ≡ b
same_bool true true f g = refl
same_bool true false f g = sym (f refl)
same_bool false true f g = g refl
same_bool false false f g = refl

or_and :
    (a b c x : Bool) → (x ≡ true) ↔ ((a ≡ true) ⊎ (b ≡ true) × (c ≡ true)) → x ≡ (a || (b && c))
or_and true b c x h = h.1 (inl refl)
or_and false true true x h = h.1 (inr (refl, refl))
or_and false true false x h =
    same_bool x false (λ e. elim (h.0 e) [ inl y ↦ y | inr (z, y) ↦ y ]) (λ e. absurd_bool e)
or_and false false c x h =
    same_bool x false (λ e. elim (h.0 e) [ inl y ↦ y | inr (z, y) ↦ z ]) (λ e. absurd_bool e)

Brought-real_events :
    (got : Mask) (failed : Bool) (events d : Mask)
    → Brought got failed events d
    → d ≡ real_events got failed events
Brought-real_events got failed events d h =
    let r = or_and got.reads failed events.reads d.reads (h read) in
    let w = or_and got.writes failed events.writes d.writes (h write) in
    λ i. record { reads = r i; writes = w i }

module _ (fd : ℕ) (p : EventPoller) (v : Inv p) (c : FdContext)
    (e : get_elem? p.contexts fd ≡ some c) where
  real-Delivered :
      (got : Mask) (failed : Bool)
      → (got.reads ≡ true → c.events.reads ≡ true)
      → (got.writes ≡ true → c.events.writes ≡ true)
      → (p' : EventPoller) × (handle fd got failed true p ≡ ok p')
        × Delivered fd (real_events got failed c.events) c p p'
  unfolding handle handle_at
  real-Delivered got failed r w =
      let d = real_events got failed c.events in
      let r' = real-subset got.reads failed c.events.reads r in
      let w' = real-subset got.writes failed c.events.writes w in
      elim (Bool-cases ((c.events.reads && d.reads) || (c.events.writes && d.writes))) [
        | inl some_real ↦
            let logged = record p { log = ctl_without fd (minus c.events d) ∷ p.log } in
            let core : Core logged = record { counted = v.core.counted; fine = v.core.fine } in
            let (p₁, p₂, f, g, b) = trigger-Both fd d logged c core e r' w' in
            (
              p₂,
              with_context-some p fd _ c e ∙ rw (some_real, f, g) refl,
              delivered fd d c p p₂ v b,
            )
        | inr none_real ↦
            let (x, y) = nothing_real c.events d r' w' none_real in
            (p, with_context-some p fd _ c e ∙ rw none_real refl, unchanged fd d c p v e x y)
      ]

  -- What `idle` does with one entry of `epoll_wait`, where the bits that the kernel reports are events
  -- that are set and `epoll_ctl` succeeds. The events `d` of the entry are those that are reported, and
  -- on EPOLLERR or EPOLLHUP all that are set. Exactly the continuations of these events are scheduled,
  -- the reader's first; the events are unset and counted off, and the invariant is kept.
  pub handle-Delivered :
      (got : Mask) (failed : Bool) (d : Mask)
      → (got.reads ≡ true → c.events.reads ≡ true)
      → (got.writes ≡ true → c.events.writes ≡ true)
      → Brought got failed c.events d
      → (p' : EventPoller) × (handle fd got failed true p ≡ ok p') × Delivered fd d c p p'
  handle-Delivered got failed d r w b =
      let (p', e', k) = real-Delivered got failed r w in
      (
        p',
        e',
        subst (λ m. Delivered fd m c p p') (sym (Brought-real_events got failed c.events d b)) k,
      )

  -- `cancelAll` on a descriptor of the table with an event, where `epoll_ctl` succeeds: the body comes to
  -- true, schedules the continuation of every event that is set, and no event is left.
  pub cancel_all_at-Delivered :
      is_none c.events ≡ false
      → (p' : EventPoller) × (cancel_all_at fd true p c ≡ ok (true, p'))
        × Delivered fd c.events c p p'
  unfolding cancel_all_at
  cancel_all_at-Delivered busy =
      let gone : minus c.events c.events ≡ no_events = ground arith in
      let logged = record p { log = ctl_without fd no_events ∷ p.log } in
      let core : Core logged = record { counted = v.core.counted; fine = v.core.fine } in
      let (p₁, p₂, f, g, b) = trigger-Both fd c.events logged c core e (λ h. h) (λ h. h) in
      let (c', e', left) = b.here in
      let is_gone : is_none c'.events ≡ true = ap is_none (left ∙ gone) in
      (
        p₂,
        rw (busy, f, g) (with_context-some p₂ fd _ c' e' ∙ rw is_gone refl),
        delivered fd c.events c p p₂ v (
            subst (λ m. Both fd c.events c (record p { log = ctl_without fd m ∷ p.log }) p₂)
              (sym gone) b),
      )
