-- ===== src/Sock/Runs.antt =====
-- Runs of sockets.
use sylar_net_server_framewo.Common.{
  ℕ, ◌≡◌, refl, ◌⊎◌, true, false, none, some, [], ◌∷◌, arith, replicate,
}
use sylar_net_server_framewo.Common.Checked.{ok}
use sylar_net_server_framewo.Common.Int.{pos, negsuc}
use sylar_net_server_framewo.Fds.Defs.{FdManager}
use sylar_net_server_framewo.Fds.Runs.{sockets, table, table-IsValid}
use sylar_net_server_framewo.Addr.Defs.{SockaddrIn, Address, ipv4_address, af_inet, get_family}
use sylar_net_server_framewo.Sock.Defs.{Socket, socket, tcp, Answers, Net, is_some}
use sylar_net_server_framewo.Sock.Steps.{connect, new_sock}
use sylar_net_server_framewo.Sock.States.{Reached, fresh, then_step, connects, Accounted}
use sylar_net_server_framewo.Sock.Descriptors.{Reached-Accounted}
use sylar_net_server_framewo.Sock.Connecting.{Outcome, connect-Outcome}
use sylar_net_server_framewo.Sock.Transfers.{Transfer, view, wanted, transfer, transfer-held, send}
use sylar_net_server_framewo.Sock.Timeouts.{
  get_socket_timeout, set_socket_timeout, get_socket_timeout-set_socket_timeout, is_pos,
}

-- Port 80 of 127.0.0.1 on a little-endian machine
abbrev server : SockaddrIn
server = record { sin_port = 20480; s_addr = 16777343; sin_zero = replicate 8 0 }

abbrev pub target : Address
target = ipv4_address server

-- The system calls succeed, with the descriptor 7.
abbrev pub works : Answers
works = record {
  opens = some 7;
  binds = true;
  connects = true;
  listens = true;
  sockname = none;
  peername = none;
  probe_opens = none;
  probe_connects = false;
}

abbrev pub start : Net
start = record {
  self = record {
    sock = none;
    type = tcp;
    family = af_inet;
    protocol = 0;
    connected = false;
    local_address = none;
    remote_address = none;
  };
  calls = [];
}

fresh_start : Reached af_inet tcp 0 start
unfolding socket
fresh_start = fresh

connected_Reached : Reached af_inet tcp 0 (connect works target 1000 start).1
connected_Reached = then_step start _ fresh_start (connects works target 1000)

reached_example : Accounted (λ fd. 0) (connect works target 1000 start).1
reached_example = Reached-Accounted af_inet tcp 0 _ connected_Reached

opens_sock : is_some (new_sock (some 7) start).self.sock ≡ true
unfolding new_sock
opens_sock = refl

target_family : get_family target ≡ start.self.family
unfolding get_family
target_family = refl

connect_example :
    ((connect works target 1000 start).0 ≡ true)
    × Outcome target true (connect works target 1000 start).1.self
connect_example = connect-Outcome works target 1000 start opens_sock target_family

transfer_example :
    ((connect works target 1000 start).1.self.connected ≡ false)
      × (transfer send 10 0 (pos 10) (connect works target 1000 start).1.self ≡ (negsuc 0, []))
    ⊎ (fd : ℕ) × (call : Transfer) × ((connect works target 1000 start).1.self.connected ≡ true)
      × ((connect works target 1000 start).1.self.sock ≡ some fd)
      × (transfer send 10 0 (pos 10) (connect works target 1000 start).1.self ≡ (pos 10, call ∷ []))
      × (view call ≡ wanted send fd 10 0)
transfer_example = transfer-held af_inet tcp 0 _ send 10 0 (pos 10) connected_Reached

abbrev of_table : Socket
of_table = record start.self { sock = some 1; connected = true }

timeout_example :
    (m' : FdManager) × (set_socket_timeout sockets true (pos 500) of_table table ≡ ok m')
    × (get_socket_timeout sockets true of_table m' ≡ ok (pos 500))
    × (get_socket_timeout sockets false of_table m'
        ≡ get_socket_timeout sockets false of_table table)
timeout_example =
    get_socket_timeout-set_socket_timeout sockets true (pos 500) of_table 1 0 table table-IsValid
      (is_pos 500 (omega arith)) refl refl
