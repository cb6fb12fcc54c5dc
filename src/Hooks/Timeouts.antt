-- ===== src/Hooks/Timeouts.antt =====
-- The timeouts of a socket and the calls that they limit (util/hook.cpp, socket/fdManager.cpp).
use sylar_net_server_framewo.Common.{
  ℕ, ◌+◌, ◌*◌, ◌/◌, ◌%◌, ◌^◌, ◌≡◌, refl, ◌∙◌, Bool, true, false, not, List, ◌==◌,
}
use sylar_net_server_framewo.Common.Checked.{ok}
use sylar_net_server_framewo.Fds.Defs.{FdCtx, Kernel, set_timeout, get_timeout, no_timeout}
use sylar_net_server_framewo.Hooks.Defs.{Attempt, Hooks, store_ctx, io_loop, do_io, set_timeouts}
use sylar_net_server_framewo.Hooks.Flags.{Has, with_ctx-Has, Has-store}

-- What `setTimeout` keeps, and that `getTimeout` answers it.
set_timeout-keeps :
    (receive : Bool) (v : ℕ) (c : FdCtx)
    → ((set_timeout receive v c).is_closed ≡ c.is_closed)
      × ((set_timeout receive v c).is_socket ≡ c.is_socket)
      × ((set_timeout receive v c).user_nonblock ≡ c.user_nonblock)
      × (get_timeout receive (set_timeout receive v c) ≡ v)
unfolding set_timeout get_timeout
set_timeout-keeps true v c = (refl, refl, refl, refl)
set_timeout-keeps false v c = (refl, refl, refl, refl)

-- `setsockopt` with a timeout on an open socket that the program left blocking: the calls of that
-- direction then wait in the poller, with a timer exactly if the timeout in milliseconds is not the
-- largest number of 64 bits, which stands for none.
pub set_timeouts-do_io :
    (k : Kernel) (fd ptr : ℕ) (c : FdCtx) (h : Hooks) (receive : Bool) (sec usec : ℕ)
    (attempts : List Attempt)
    → Has fd ptr c h.fds
    → c.is_closed ≡ false
    → c.is_socket ≡ true
    → c.user_nonblock ≡ false
    → (h' : Hooks) × (set_timeouts true k fd receive sec usec h ≡ ok h')
      × (do_io true k fd receive h'.fds attempts
          ≡ ok (io_loop (not ((sec * 1000 + usec / 1000) % 2 ^ 64 == no_timeout)) attempts))
unfolding set_timeouts do_io
set_timeouts-do_io k fd ptr c h receive sec usec attempts has opened sock blocking =
    let ms = (sec * 1000 + usec / 1000) % 2 ^ 64 in
    let c' = set_timeout receive ms c in
    let h' = record h { fds = store_ctx ptr c' h.fds } in
    let (a, b, d, e) = set_timeout-keeps receive ms c in
    let a' : c'.is_closed ≡ false = a ∙ opened in
    let b' : c'.is_socket ≡ true = b ∙ sock in
    let d' : c'.user_nonblock ≡ false = d ∙ blocking in
    (
      h',
      with_ctx-Has k fd ptr c h.fds _ _ has,
      with_ctx-Has k fd ptr c' h'.fds _ _ (Has-store fd ptr c c' h.fds has)
          ∙ rw (e, a', b', d') refl,
    )
