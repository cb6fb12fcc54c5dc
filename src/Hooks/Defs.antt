-- ===== src/Hooks/Defs.antt =====
-- `do_io`, `fcntl`, `ioctl` and `setsockopt` (util/hook.cpp). What the original calls answer is an
-- argument; the file status flags of the kernel are part of the state. The original `fcntl` and
-- `ioctl` succeed.
use sylar_net_server_framewo.Common.{
  ℕ, ◌+◌, ◌*◌, ◌/◌, ◌%◌, ◌^◌, Bool, false, not, ◌&&◌, ◌||◌, Option, none, some, List, [], ◌∷◌, ◌==◌,
  if◌then◌else◌, get_elem?, set,
}
use sylar_net_server_framewo.Common.Checked.{Checked, ok, undefined, ◌>>=◌}
use sylar_net_server_framewo.Common.Int.{pos}
use sylar_net_server_framewo.Fds.Defs.{
  FdCtx, Kernel, FdManager, get, set_timeout, get_timeout, no_timeout,
}

pub data Errno : Type 0 where
  eintr eagain ebadf etimedout : Errno
  other : ℕ → Errno

pub data Answer : Type 0 where
  value : ℕ → Answer
  error : Errno → Answer

-- One call of the original function, and what follows if it answers EAGAIN: whether `addEvent`
-- succeeds, and whether the timer has cancelled the event when the fiber runs again.
pub record Attempt : Type 0 where
  pub answer : Answer
  pub added : Bool
  pub expired : Bool

-- `none` is a call that is still waiting when the attempts are used up.
abbrev pub through : List Attempt → Option Answer
through [] = none
through (a ∷ more) = some a.answer

-- The part of `do_io` from `retry` on; `timed` says that there is a timer. Without an event the call
-- fails with the errno that is there.
abbrev pub wait_or_fail : Bool → Attempt → Option Answer → Option Answer
wait_or_fail timed a rest =
    if not a.added
    then some (error eagain)
    else if timed && a.expired
    then some (error etimedout)
    else rest

abbrev pub attempt : Bool → Attempt → Option Answer → Option Answer
attempt timed a rest = elim a.answer [
  | value n ↦ some (value n)
  | error e ↦ elim e [
    | eintr ↦ rest
    | eagain ↦ wait_or_fail timed a rest
    | ebadf ↦ some (error ebadf)
    | etimedout ↦ some (error etimedout)
    | other n ↦ some (error (other n))
  ]
]

unfoldable pub io_loop : Bool → List Attempt → Option Answer
io_loop timed [] = none
io_loop timed (a ∷ more) = let rest = io_loop timed more in attempt timed a rest

-- The context of a descriptor, as the hooks look it up.
abbrev pub with_ctx {ℓ} :
    {A : Type ℓ} → Kernel → ℕ → FdManager → Checked A → (ℕ → FdCtx → Checked A) → Checked A
with_ctx k fd m direct f = get k (pos fd) false m >>= λ r. elim r.0 [
  | none ↦ direct
  | some ptr ↦ elim (get_elem? m.heap ptr) [ none ↦ undefined | some c ↦ f ptr c ]
]

unfoldable pub do_io : Bool → Kernel → ℕ → Bool → FdManager → List Attempt → Checked (Option Answer)
do_io enabled k fd receive m attempts =
    if not enabled
    then ok (through attempts)
    else with_ctx k fd m (ok (through attempts)) λ ptr c.
      if c.is_closed
      then ok (some (error ebadf))
      else if not c.is_socket || c.user_nonblock
      then ok (through attempts)
      else ok (io_loop (not (get_timeout receive c == no_timeout)) attempts)

-- The argument of `F_SETFL`: `O_NONBLOCK` and the other bits.
pub record Flags : Type 0 where
  pub nonblock : Bool
  pub others : ℕ

pub record Hooks : Type 0 where
  pub fds : FdManager
  pub flags : ℕ → Flags

abbrev pub store_ctx : ℕ → FdCtx → FdManager → FdManager
store_ctx ptr c m = record m { heap = set m.heap ptr c }

abbrev pub set_flags : ℕ → Flags → Hooks → Hooks
set_flags fd f h = record h { flags = λ g. if fd == g then f else h.flags g }

abbrev pub is_plain : FdCtx → Bool
is_plain c = c.is_closed || not c.is_socket

-- `fcntl(fd, F_SETFL, arg)`
unfoldable pub fcntl_setfl : Kernel → ℕ → Flags → Hooks → Checked Hooks
fcntl_setfl k fd arg h = with_ctx k fd h.fds (ok (set_flags fd arg h)) λ ptr c.
    if is_plain c
    then ok (set_flags fd arg h)
    else ok (
        set_flags fd (record arg { nonblock = c.sys_nonblock })
          (record h { fds = store_ctx ptr (record c { user_nonblock = arg.nonblock }) h.fds }))

-- `fcntl(fd, F_GETFL)`
unfoldable pub fcntl_getfl : Kernel → ℕ → Hooks → Checked Flags
fcntl_getfl k fd h = with_ctx k fd h.fds (ok (h.flags fd)) λ ptr c.
    if is_plain c then ok (h.flags fd) else ok (record (h.flags fd) { nonblock = c.user_nonblock })

-- `ioctl(fd, FIONBIO, &flag)`
unfoldable pub ioctl_fionbio : Kernel → ℕ → Bool → Hooks → Checked Hooks
ioctl_fionbio k fd flag h =
    let f = record (h.flags fd) { nonblock = flag } in
    with_ctx k fd h.fds (ok (set_flags fd f h)) λ ptr c.
      if is_plain c
      then ok (set_flags fd f h)
      else ok (
          set_flags fd f
            (record h { fds = store_ctx ptr (record c { user_nonblock = flag }) h.fds }))

-- `setsockopt(fd, SOL_SOCKET, SO_RCVTIMEO or SO_SNDTIMEO, &v)`, up to the original call.
unfoldable pub set_timeouts : Bool → Kernel → ℕ → Bool → ℕ → ℕ → Hooks → Checked Hooks
set_timeouts enabled k fd receive sec usec h =
    let ms = (sec * 1000 + usec / 1000) % 2 ^ 64 in
    if not enabled
    then ok h
    else with_ctx k fd h.fds (ok h)
        λ ptr c. ok (record h { fds = store_ctx ptr (set_timeout receive ms c) h.fds })
