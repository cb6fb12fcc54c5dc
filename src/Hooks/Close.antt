-- ===== src/Hooks/Close.antt =====
-- `close` of a descriptor, over the poller and the descriptor table (util/hook.cpp).
use sylar_net_server_framewo.Common.{ℕ, Bool, false, not, none, some, if◌then◌else◌}
use sylar_net_server_framewo.Common.Checked.{Checked, ok, ◌>>=◌}
use sylar_net_server_framewo.Common.Int.{pos}
use sylar_net_server_framewo.Fds.Defs.{Kernel, FdManager, get, del}
use sylar_net_server_framewo.Poller.Defs.{EventPoller, cancel_all}

-- `poller` says whether `EventPoller::getThis` is not null; the original `close` comes after.
unfoldable pub close :
    Bool → Bool → Kernel → ℕ → Bool → FdManager → EventPoller → Checked (FdManager × EventPoller)
close enabled poller k fd ctl_ok m p =
    if not enabled
    then ok (m, p)
    else (get k (pos fd) false m >>= λ r. elim r.0 [
      | none ↦ ok (m, p)
      | some ptr ↦
          ((if poller then (cancel_all fd ctl_ok p >>= λ c. ok c.1) else ok p) >>= λ p'.
          del (pos fd) m >>= λ m'. ok (m', p'))
    ])
