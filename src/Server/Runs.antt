-- ===== src/Server/Runs.antt =====
-- Runs of the server.
use sylar_net_server_framewo.Common.{◌≡◌, true, false, none, some, List, [], ◌∷◌, ◌++◌}
use sylar_net_server_framewo.Common.Checked.{ok}
use sylar_net_server_framewo.Fds.Defs.{FdManager, FdCtx, no_timeout}
use sylar_net_server_framewo.Fds.Slots.{IsValid}
use sylar_net_server_framewo.Fds.Runs.{sockets, table, table-IsValid}
use sylar_net_server_framewo.Sock.Defs.{Net}
use sylar_net_server_framewo.Sock.Runs.{start, works, target}
use sylar_net_server_framewo.Server.Defs.{tcp_server, Binding, Round, Task, listen_loop}
use sylar_net_server_framewo.Server.Clients.{Handed, listen_loop-Handed}

-- One address that works and one whose `bind` fails.
abbrev two_bindings : List Binding
two_bindings =
    record { address = target; path = []; answers = works }
    ∷ record { address = target; path = []; answers = record works { binds = false } }
    ∷ []

abbrev open_socket : FdCtx
open_socket = record {
  is_init = true;
  is_socket = true;
  sys_nonblock = true;
  user_nonblock = false;
  is_closed = false;
  fd = 1;
  recv_timeout = no_timeout;
  send_timeout = no_timeout;
}

-- A client on the descriptor 1, and a failed `accept`.
abbrev two_rounds : List Round
two_rounds =
    record { answers = works; accepted = some 1; ctx = some open_socket }
    ∷ record { answers = works; accepted = none; ctx = none }
    ∷ []

listen_example :
    (sock' : Net) × (m' : FdManager) × (ts : List Task) × (listen_loop sockets two_rounds start
        (tcp_server, table)
      ≡ ok (sock', record tcp_server { worker = tcp_server.worker ++ ts }, m'))
    × Handed two_rounds ts
    × IsValid m'
listen_example = listen_loop-Handed sockets two_rounds start tcp_server table table-IsValid
