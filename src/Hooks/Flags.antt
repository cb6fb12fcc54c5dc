-- ===== src/Hooks/Flags.antt =====
-- What the program and what the kernel see of `O_NONBLOCK` (util/hook.cpp).
use sylar_net_server_framewo.Common.{
  zero, suc, ℕ, ◌≡◌, refl, ◌∙◌, true, false, none, some, List, [], ◌∷◌, arith, ◌==◌, get_elem?, set,
}
use sylar_net_server_framewo.Common.Checked.{Checked, ok, undefined}
use sylar_net_server_framewo.Common.Int.{pos}
use sylar_net_server_framewo.Fds.Defs.{FdCtx, Kernel, FdManager, get}
use sylar_net_server_framewo.Hooks.Defs.{
  Flags, Hooks, with_ctx, store_ctx, set_flags, is_plain, fcntl_setfl, fcntl_getfl, ioctl_fionbio,
}

get_elem?-set_same :
    (xs : List FdCtx) (i : ℕ) (c c' : FdCtx)
    → get_elem? xs i ≡ some c
    → get_elem? (set xs i c') i ≡ some c'
get_elem?-set_same [] i c c' h = cc
get_elem?-set_same (x ∷ xs) zero c c' h = refl
get_elem?-set_same (x ∷ xs) (suc i) c c' h = get_elem?-set_same xs i c c' h

-- The descriptor `fd` has the context `c`, at `ptr`.
pub record Has (fd ptr : ℕ) (c : FdCtx) (m : FdManager) : Type 0 where
  pub here : get_elem? m.datas fd ≡ some (some ptr)
  pub ctx : get_elem? m.heap ptr ≡ some c

pub with_ctx-Has {ℓ} :
    {A : Type ℓ} (k : Kernel) (fd ptr : ℕ) (c : FdCtx) (m : FdManager) (direct : Checked A)
    (f : ℕ → FdCtx → Checked A)
    → Has fd ptr c m
    → with_ctx k fd m direct f ≡ f ptr c
unfolding get
with_ctx-Has {A = A} k fd ptr c m direct f h =
    let here = h.here in
    let ctx = h.ctx in
    let g : get k (pos fd) false m ≡ ok (some ptr, m) = rw (get, here) refl in
    let found : elim (get_elem? m.heap ptr) as (λ x. Checked A) [
      | none ↦ undefined
      | some d ↦ f ptr d
    ]
        ≡ f ptr c =
      rw ctx refl in
    rw (with_ctx, g) found

pub Has-store :
    (fd ptr : ℕ) (c c' : FdCtx) (m : FdManager)
    → Has fd ptr c m
    → Has fd ptr c' (store_ctx ptr c' m)
Has-store fd ptr c c' m h = record { here = h.here; ctx = get_elem?-set_same m.heap ptr c c' h.ctx }

module _ (k : Kernel) (fd ptr : ℕ) (c : FdCtx) (h : Hooks) (has : Has fd ptr c h.fds)
    (hooked : is_plain c ≡ false) where
  -- The hook is transparent: after F_SETFL on an open socket, F_GETFL answers the flags that were set,
  -- while the kernel's own O_NONBLOCK stays what the framework wants.
  pub fcntl_setfl-fcntl_getfl :
      (arg : Flags)
      → (h' : Hooks) × (fcntl_setfl k fd arg h ≡ ok h')
        × (fcntl_getfl k fd h' ≡ ok arg)
        × (h'.flags fd ≡ record arg { nonblock = c.sys_nonblock })
  unfolding fcntl_setfl fcntl_getfl
  fcntl_setfl-fcntl_getfl arg =
      let c' = record c { user_nonblock = arg.nonblock } in
      let h' =
        set_flags fd (record arg { nonblock = c.sys_nonblock })
          (record h { fds = store_ctx ptr c' h.fds }) in
      let same : (fd == fd) ≡ true = ground arith in
      (
        h',
        with_ctx-Has k fd ptr c h.fds _ _ has ∙ rw hooked refl,
        with_ctx-Has k fd ptr c' h'.fds _ _ (Has-store fd ptr c c' h.fds has)
            ∙ rw (hooked, same) refl,
        rw same refl,
      )

  -- FIONBIO is not transparent: with the flag 0 on an open socket it makes the kernel's descriptor
  -- blocking, although F_GETFL, before and after, answers what the program asked for.
  pub ioctl_fionbio-blocks :
      (h' : Hooks) × (ioctl_fionbio k fd false h ≡ ok h')
      × (fcntl_getfl k fd h' ≡ ok (record (h.flags fd) { nonblock = false }))
      × ((h'.flags fd).nonblock ≡ false)
  unfolding ioctl_fionbio fcntl_getfl
  ioctl_fionbio-blocks =
      let c' = record c { user_nonblock = false } in
      let h' =
        set_flags fd (record (h.flags fd) { nonblock = false })
          (record h { fds = store_ctx ptr c' h.fds }) in
      let same : (fd == fd) ≡ true = ground arith in
      (
        h',
        with_ctx-Has k fd ptr c h.fds _ _ has ∙ rw hooked refl,
        with_ctx-Has k fd ptr c' h'.fds _ _ (Has-store fd ptr c c' h.fds has)
            ∙ rw (hooked, same) refl,
        rw same refl,
      )
