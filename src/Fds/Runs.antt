-- ===== src/Fds/Runs.antt =====
-- Runs of the descriptor table.
use sylar_net_server_framewo.Common.{
  zero, suc, get_elem?, ℕ, ◌≡◌, refl, true, false, none, some, [], ◌∷◌, arith,
}
use sylar_net_server_framewo.Common.Checked.{ok}
use sylar_net_server_framewo.Common.Int.{pos}
use sylar_net_server_framewo.Fds.Defs.{Kernel, FdManager, FdCtx, get, no_timeout}
use sylar_net_server_framewo.Fds.Slots.{IsValid, Found, slot, get-Found}

-- Every descriptor is a socket.
abbrev pub sockets : Kernel
sockets = record { stat = λ fd. some true; nonblock = λ fd. false }

abbrev one_context : FdCtx
one_context = record {
  is_init = true;
  is_socket = true;
  sys_nonblock = true;
  user_nonblock = false;
  is_closed = false;
  fd = 1;
  recv_timeout = no_timeout;
  send_timeout = no_timeout;
}

abbrev pub table : FdManager
table = record { heap = one_context ∷ []; datas = none ∷ some 0 ∷ []; set_nonblock = 1 ∷ [] }

owned_in_table :
    (i ptr : ℕ)
    → slot table.datas i ≡ some ptr
    → (c : FdCtx) × (get_elem? table.heap ptr ≡ some c) × (c.fd ≡ i)
owned_in_table zero ptr h = cc
owned_in_table (suc zero) zero h = (one_context, refl, refl)
owned_in_table (suc zero) (suc ptr) h = cc
owned_in_table (suc (suc i)) ptr h = cc

pub table-IsValid : IsValid table
table-IsValid = record { big = omega arith; owned = owned_in_table }

get_example :
    (ptr : ℕ) × (m' : FdManager) × (get sockets (pos 5) true table ≡ ok (some ptr, m'))
    × Found 5 ptr table m'
get_example = get-Found sockets 5 table table-IsValid
