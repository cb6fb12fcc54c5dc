-- ===== src/Poller/Resize.antt =====
-- The invariant of `EventPoller`, and `contextResize` (eventpoller/eventpoller.cpp).
use sylar_net_server_framewo.Common.{
  ℕ, zero, suc, ◌-◌, ◌≤◌, ◌≡◌, refl, ap, ◌∙◌, sym, inl, inr, List, [], ◌∷◌, ◌++◌, arith, tests, leb,
  ◌==◌, if◌then◌else◌, length, All, All-append, length-append, Bool-cases,
}
use sylar_net_server_framewo.Common.Checked.{ok, undefined}
use sylar_net_server_framewo.Poller.Locks.{unheld, exclusive}
use sylar_net_server_framewo.Poller.Defs.{
  Mask, no_events, FdContext, Ctl, EventPoller, more_contexts, resize_contexts, context_resize,
}
use sylar_net_server_framewo.Poller.Contexts.{FdOk, set_events, events_at, Core}

-- What the kernel watches, by the calls of `epoll_ctl` so far.
abbrev pub interest : List Ctl → ℕ → Mask
interest [] fd = no_events
interest (c ∷ cs) fd = if c.fd == fd then c.events else interest cs fd

-- The pending count is the number of events that are set; an event is set exactly if its context
-- holds a continuation; and the kernel watches exactly the events that are set.
pub record Inv (p : EventPoller) : Type 0 where
  pub core : Core p
  pub synced : (fd : ℕ) → interest p.log fd ≡ events_at p.contexts fd

events_at-more : (from n g : ℕ) → events_at (more_contexts from n) g ≡ no_events
unfolding more_contexts
events_at-more from zero g = refl
events_at-more from (suc n) zero = refl
events_at-more from (suc n) (suc g) = events_at-more (suc from) n g

events_at-append :
    (cs : List FdContext) (from n g : ℕ) → events_at (cs ++ more_contexts from n) g ≡ events_at cs g
events_at-append [] from n g = events_at-more from n g
events_at-append (c ∷ cs) from n zero = refl
events_at-append (c ∷ cs) from n (suc g) = events_at-append cs from n g

set_events-append :
    (cs : List FdContext) (from n : ℕ) → set_events (cs ++ more_contexts from n) ≡ set_events cs
unfolding more_contexts
set_events-append [] from zero = refl
set_events-append [] from (suc n) = omega (arith, set_events-append [] (suc from) n)
set_events-append (c ∷ cs) from n = omega (arith, set_events-append cs from n)

FdOk-more : (from n : ℕ) → All FdOk (more_contexts from n)
unfolding more_contexts
FdOk-more from zero = tt
FdOk-more from (suc n) = ((refl, refl), FdOk-more (suc from) n)

length-more : (from n : ℕ) → length (more_contexts from n) ≡ n
unfolding more_contexts
length-more from zero = refl
length-more from (suc n) = ap suc (length-more (suc from) n)

-- `contextResize` keeps all that is known of the old descriptors.
pub record Resized (size : ℕ) (p p' : EventPoller) : Type 0 where
  pub inv : Inv p'
  pub events : (g : ℕ) → events_at p'.contexts g ≡ events_at p.contexts g
  pub enough : size ≤ length p'.contexts
  pub scheduled : p'.scheduled ≡ p.scheduled
  pub pending : p'.pending ≡ p.pending

pub resize_contexts-Resized :
    (size : ℕ) (p : EventPoller) → Inv p → Resized size p (resize_contexts size p)
unfolding resize_contexts
resize_contexts-Resized size p v = elim (Bool-cases (leb size (length p.contexts))) [
  | inl le ↦ rw le (record {
    inv = v;
    events = λ g. refl;
    enough = omega tests;
    scheduled = refl;
    pending = refl;
  })
  | inr gt ↦
      let n = length p.contexts in
      rw gt (record {
        inv = record {
          core = record {
            counted = v.core.counted ∙ sym (set_events-append p.contexts n (size - n));
            fine = All-append FdOk p.contexts _ v.core.fine (FdOk-more n (size - n));
          };
          synced = λ fd. v.synced fd ∙ sym (events_at-append p.contexts n (size - n) fd);
        };
        events = λ g. events_at-append p.contexts n (size - n) g;
        enough = omega (
          tests,
          length-append p.contexts (more_contexts n (size - n)),
          length-more n (size - n),
        );
        scheduled = refl;
        pending = refl;
      })
]

-- `contextResize` of a thread that does not hold `m_mtx` works; of one that does it is undefined.
pub context_resize-cases :
    (size : ℕ) (p : EventPoller)
    → (context_resize unheld size p ≡ ok (resize_contexts size p))
      × (context_resize exclusive size p ≡ undefined)
unfolding context_resize
context_resize-cases size p = (refl, refl)
