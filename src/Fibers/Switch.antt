-- ===== src/Fibers/Switch.antt =====
-- Where the control goes when fibers are swapped in and out (fiber/fiber.cpp).
use sylar_net_server_framewo.Common.{
  ℕ, ◌≡◌, ◌≢◌, refl, ap, ◌∙◌, Bool, true, false, arith, ◌==◌, if◌then◌else◌,
}
use sylar_net_server_framewo.Common.Checked.{ok}
use sylar_net_server_framewo.Sched.Defs.{hold, exec, term, ready, except, is_exec}
use sylar_net_server_framewo.Fibers.Defs.{
  Point, Cpu, update, swapcontext, set_state, swap_in, swap_out, yield_to_hold, yield_to_ready,
  main_func_end,
}

update_self {ℓ} : {A : Type ℓ} (f : ℕ → A) (i : ℕ) (a : A) → update f i a i ≡ a
update_self f i a = let e : (i == i) ≡ true = ground arith in rw e refl

update-other {ℓ} : {A : Type ℓ} (f : ℕ → A) (i j : ℕ) (a : A) → i ≢ j → update f i a j ≡ f j
update-other f i j a ne = let e : (i == j) ≡ false = ground arith in rw e refl

-- The control is in fiber `f`, which the scheduler swapped in at the point `x` of its loop.
pub record SwappedIn (f : ℕ) (x : Point) (c : Cpu) : Type 0 where
  pub this : c.this ≡ f
  pub state : c.states f ≡ exec
  pub loop : c.saved c.main ≡ x
  pub apart : f ≢ c.main

-- `swapIn` of a fiber that does not run continues the fiber where it was left, and keeps the point of
-- the loop.
pub swap_in-SwappedIn :
    (f : ℕ) (c : Cpu)
    → is_exec (c.states f) ≡ false
    → f ≢ c.main
    → (c' : Cpu) × (swap_in f c ≡ ok c') × SwappedIn f c.code c' × (c'.code ≡ c.saved f)
unfolding swap_in
swap_in-SwappedIn f c quiet apart = (
  swapcontext c.main f (set_state f exec (record c { this = f })),
  rw quiet refl,
  record {
    this = refl;
    state = update_self c.states f exec;
    loop = update_self c.saved c.main c.code;
    apart = apart;
  },
  refl,
)

module _ (f : ℕ) (x : Point) (c : Cpu) (h : SwappedIn f x c) where
  -- `yieldToHold` of a fiber that was swapped in: the loop goes on where it swapped the fiber in, the
  -- fiber is on hold, and a later `swapIn` continues the fiber where it yielded.
  pub yield_to_hold-resumes :
      (c₁ : Cpu) × (c₂ : Cpu) × (yield_to_hold c ≡ ok c₁)
      × (c₁.code ≡ x)
      × (c₁.states f ≡ hold)
      × (swap_in f c₁ ≡ ok c₂)
      × (c₂.code ≡ c.code)
  unfolding yield_to_hold swap_out
  yield_to_hold-resumes =
      let c₁ = swapcontext f c.main (record (set_state f hold c) { this = c.main }) in
      let on : is_exec (c.states f) ≡ true = ap is_exec h.state in
      let held : c₁.states f ≡ hold = update_self c.states f hold in
      let (c₂, e, _, r) = swap_in-SwappedIn f c₁ (ap is_exec held) h.apart in
      (c₁, c₂, rw (h.this, on) refl, h.loop, held, e, r ∙ update_self c.saved f c.code)

  -- The end of a fiber that was swapped in: the loop goes on where it swapped the fiber in, and the
  -- fiber is over.
  pub main_func_end-over :
      (threw : Bool)
      → ((main_func_end threw c).code ≡ x)
        × ((main_func_end threw c).states f ≡ (if threw then except else term))
  unfolding main_func_end swap_out
  main_func_end-over true = (h.loop, rw h.this (update_self c.states f except))
  main_func_end-over false = (h.loop, rw h.this (update_self c.states f term))

  -- `yieldToReady` of a fiber that was swapped in does not go back to the loop: the fiber starts again
  -- from its last saved context, still in the state `EXEC`, and the point of the loop is lost.
  pub yield_to_ready-lost :
      (c' : Cpu) × (yield_to_ready c ≡ ok c')
      × (c'.code ≡ c.saved f)
      × (c'.states f ≡ exec)
      × (c'.saved c'.main ≡ c.code)
  unfolding yield_to_ready swap_in
  yield_to_ready-lost =
      let on : is_exec (c.states f) ≡ true = ap is_exec h.state in
      let readied = set_state f ready c in
      let quiet : is_exec (readied.states f) ≡ false = ap is_exec (update_self c.states f ready) in
      (
        swapcontext c.main f (set_state f exec (record readied { this = f })),
        rw (h.this, on, quiet) refl,
        refl,
        update_self readied.states f exec,
        update_self c.saved c.main c.code,
      )
