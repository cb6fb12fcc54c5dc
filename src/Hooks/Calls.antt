-- ===== src/Hooks/Calls.antt =====
-- The other hooked calls (util/hook.cpp): the calls that go through `do_io`, `socket`, `accept` and
-- `connect`, and the periods of the sleeps.
use sylar_net_server_framewo.Common.{
  ℕ, ◌+◌, ◌-◌, ◌*◌, ◌/◌, ◌%◌, ◌^◌, ◌≡◌, refl, Bool, true, false, not, ◌&&◌, ◌||◌, Option, none,
  some, List, ltb, ◌==◌, if◌then◌else◌,
}
use sylar_net_server_framewo.Common.Checked.{Checked, ok, ◌>>=◌}
use sylar_net_server_framewo.Common.Int.{pos}
use sylar_net_server_framewo.Fds.Defs.{Kernel, FdManager, get}
use sylar_net_server_framewo.Fds.Slots.{IsValid, Found, get-Found}
use sylar_net_server_framewo.Hooks.Defs.{
  Errno, eintr, eagain, ebadf, etimedout, other, Answer, value, error, Attempt, with_ctx, do_io,
}

-- The hooked calls that read and write, and the event and timeout that they hand to `do_io`
pub data IoCall : Type 0 where
  read readv recv recvfrom recvmsg write writev send sendto sendmsg : IoCall

unfoldable pub receives : IoCall → Bool
receives read = true
receives readv = true
receives recv = true
receives recvfrom = true
receives recvmsg = true
receives write = false
receives writev = false
receives send = false
receives sendto = false
receives sendmsg = false

unfoldable pub io_call :
    IoCall → Bool → Kernel → ℕ → FdManager → List Attempt → Checked (Option Answer)
io_call call enabled k fd m attempts = do_io enabled k fd (receives call) m attempts

-- `socket`, with what the original answers: a descriptor gets a context.
unfoldable pub socket : Bool → Kernel → Answer → FdManager → Checked (Answer × FdManager)
socket enabled k (error e) m = ok (error e, m)
socket enabled k (value fd) m =
    if not enabled then ok (value fd, m) else (get k (pos fd) true m >>= λ r. ok (value fd, r.1))

-- What `accept` does with the answer of `do_io`, which is none where it still waits.
unfoldable pub register : Kernel → Option Answer → FdManager → Checked (Option Answer × FdManager)
register k none m = ok (none, m)
register k (some (error e)) m = ok (some (error e), m)
register k (some (value fd)) m = get k (pos fd) true m >>= λ r. ok (some (value fd), r.1)

unfoldable pub accept :
    Bool → Kernel → ℕ → FdManager → List Attempt → Checked (Option Answer × FdManager)
accept enabled k s m attempts = do_io enabled k s true m attempts >>= λ a. register k a m

-- `EINPROGRESS`
abbrev pub einprogress : Errno
einprogress = other 115

-- The errno with a number.
unfoldable pub errno_of : ℕ → Errno
errno_of n =
    if n == 4
    then eintr
    else if n == 11
    then eagain
    else if n == 9
    then ebadf
    else if n == 110
    then etimedout
    else other n

-- What the original `connect` answers, whether `addEvent` succeeds, whether the timer has cancelled
-- the event when the fiber runs again, and what `getsockopt` answers with `SO_ERROR`: an error, or the
-- number of the error of the socket.
pub record Connecting : Type 0 where
  pub answer : Answer
  pub added : Bool
  pub expired : Bool
  pub so_error : Answer

-- The end of `connect_with_timeout`, from `getsockopt` on
unfoldable pub checked_error : Answer → Answer
checked_error (error e) = error e
checked_error (value n) = if n == 0 then value 0 else error (errno_of n)

unfoldable pub is_einprogress : Answer → Bool
is_einprogress (value n) = false
is_einprogress (error eintr) = false
is_einprogress (error eagain) = false
is_einprogress (error ebadf) = false
is_einprogress (error etimedout) = false
is_einprogress (error (other n)) = n == 115

-- `connect_with_timeout`, where `timed` says that the timeout is not -1
unfoldable pub connect_with_timeout :
    Bool → Kernel → ℕ → Bool → FdManager → Connecting → Checked Answer
connect_with_timeout enabled k fd timed m a =
    if not enabled
    then ok a.answer
    else with_ctx k fd m (ok (error ebadf)) λ ptr c.
      if c.is_closed
      then ok (error ebadf)
      else if not c.is_socket || c.user_nonblock
      then ok a.answer
      else if not (is_einprogress a.answer)
      then ok a.answer
      else if a.added && (timed && a.expired)
      then ok (error etimedout)
      else ok (checked_error a.so_error)

-- The milliseconds after which `sleep`, `usleep` and `nanosleep` go on: unsigned, unsigned, and an
-- `int` that becomes the `uint64_t` of `addTimer`.
unfoldable pub sleep_ms : ℕ → ℕ
sleep_ms secs = secs * 1000 % 2 ^ 32

unfoldable pub usleep_ms : ℕ → ℕ
usleep_ms usec = usec / 1000

unfoldable pub nanosleep_ms : ℕ → ℕ → ℕ
nanosleep_ms sec nsec =
    let ms = (sec * 1000 + nsec / 1000 / 1000) % 2 ^ 32 in
    if ltb ms (2 ^ 31) then ms else ms + (2 ^ 64 - 2 ^ 32)

-- A descriptor that `socket` or `accept` hands out with hooks has a context in a valid table, and no
-- other slot has changed.
pub socket-Found :
    (k : Kernel) (fd : ℕ) (m : FdManager)
    → IsValid m
    → (ptr : ℕ) × (m' : FdManager) × (socket true k (value fd) m ≡ ok (value fd, m'))
      × (register k (some (value fd)) m ≡ ok (some (value fd), m'))
      × Found fd ptr m m'
unfolding socket register
socket-Found k fd m v =
    let (ptr, m', e, f) = get-Found k fd m v in
    (ptr, m', rw (socket, e) refl, rw (register, e) refl, f)
