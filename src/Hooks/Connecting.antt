-- ===== src/Hooks/Connecting.antt =====
-- When the hooked `connect` succeeds (util/hook.cpp).
use sylar_net_server_framewo.Common.{
  absurd_bool, ℕ, ◌≡◌, ◌≢◌, ◌↔◌, refl, sym, ap, ◌∙◌, ◌⊎◌, inl, inr, Bool, true, false, not, ◌&&◌,
  ◌||◌, arith, ◌==◌, Bool-cases,
}
use sylar_net_server_framewo.Common.Checked.{ok}
use sylar_net_server_framewo.Fds.Defs.{FdCtx, Kernel, FdManager}
use sylar_net_server_framewo.Hooks.Defs.{ebadf, etimedout, Answer, value, error}
use sylar_net_server_framewo.Hooks.Flags.{Has, with_ctx-Has}
use sylar_net_server_framewo.Hooks.Calls.{
  Connecting, checked_error, errno_of, is_einprogress, connect_with_timeout,
}

checked_error_iff : (a : Answer) → (checked_error a ≡ value 0) ↔ (a ≡ value 0)
unfolding checked_error
checked_error_iff (error e) = ((λ h. cc), (λ h. cc))
checked_error_iff (value n) = elim (Bool-cases (n == 0)) [
  | inl e ↦ let zero_here : n ≡ 0 = ground arith in ((λ h. ap value zero_here), (λ h. rw e refl))
  | inr e ↦
      let zero_not : n ≢ 0 = ground arith in
      (
        (λ h. let q : error (errno_of n) ≡ value 0 = rw e at h in cc),
        (λ h. let q : n ≡ 0 = cc in absurd (zero_not q)),
      )
]

ok_injective {ℓ} : {A : Type ℓ} (a b : A) → ok a ≡ ok b → a ≡ b
ok_injective a b h = cc

-- How a connection is made: at once, or after a wait that no timer has ended, with no error of the
-- socket.
abbrev pub Connects : Bool → Connecting → Type 0
Connects timed a =
    (a.answer ≡ value 0)
    ⊎ (is_einprogress a.answer ≡ true)
      × ((a.added && (timed && a.expired)) ≡ false)
      × (a.so_error ≡ value 0)

-- For an open blocking socket `connect` answers 0 if and only if the original call does, or it was in
-- progress, no timer has ended the wait, and the socket has no error. Whether there was a wait at all,
-- that is, whether `addEvent` succeeded, does not matter.
pub connect_with_timeout_iff :
    (k : Kernel) (fd ptr : ℕ) (c : FdCtx) (timed : Bool) (m : FdManager) (a : Connecting)
    → Has fd ptr c m
    → c.is_closed ≡ false
    → (not c.is_socket || c.user_nonblock) ≡ false
    → (connect_with_timeout true k fd timed m a ≡ ok (value 0)) ↔ Connects timed a
unfolding connect_with_timeout is_einprogress
connect_with_timeout_iff k fd ptr c timed m a has open_here hooked =
    let looked = with_ctx-Has k fd ptr c m (ok (error ebadf)) _ has in
    elim (Bool-cases (is_einprogress a.answer)) [
      | inr e ↦
          let q : connect_with_timeout true k fd timed m a ≡ ok a.answer =
            looked ∙ rw (open_here, hooked, e) refl in
          (
            (λ h. inl (ok_injective a.answer (value 0) (sym q ∙ h))),
            (λ r. elim r [ inl z ↦ q ∙ ap ok z | inr p ↦ absurd_bool (sym e ∙ p.0) ]),
          )
      | inl e ↦ elim (Bool-cases (a.added && (timed && a.expired))) [
        | inl t ↦
            let q : connect_with_timeout true k fd timed m a ≡ ok (error etimedout) =
              looked ∙ rw (open_here, hooked, e, t) refl in
            (
              (λ h. let x : error etimedout ≡ value 0 = ok_injective _ _ (sym q ∙ h) in cc),
              (λ r. elim r [
                | inl z ↦ absurd_bool (ap is_einprogress (sym z) ∙ e)
                | inr p ↦ absurd_bool (sym p.1 ∙ t)
              ]),
            )
        | inr t ↦
            let q : connect_with_timeout true k fd timed m a ≡ ok (checked_error a.so_error) =
              looked ∙ rw (open_here, hooked, e, t) refl in
            let checked = checked_error_iff a.so_error in
            (
              (λ h. inr (e, t, checked.0 (ok_injective _ _ (sym q ∙ h)))),
              (λ r. elim r [
                | inl z ↦ absurd_bool (ap is_einprogress (sym z) ∙ e)
                | inr p ↦ q ∙ ap ok (checked.1 p.2)
              ]),
            )
      ]
    ]
