-- ===== src/Server/Defs.antt =====
-- `TcpServer` (server/TCPserver.h and .cpp). A socket stands with the calls that it made; what the
-- system calls answer is an argument.
use sylar_net_server_framewo.Common.{
  ℕ, ◌*◌, Bool, true, false, not, Option, none, some, List, [], ◌∷◌, ◌++◌, map, if◌then◌else◌,
}
use sylar_net_server_framewo.Common.Checked.{Checked, ok, undefined, ◌>>=◌}
use sylar_net_server_framewo.Common.Int.{pos}
use sylar_net_server_framewo.Fds.Defs.{FdCtx, Kernel, FdManager}
use sylar_net_server_framewo.Addr.Defs.{Address}
use sylar_net_server_framewo.Sock.Defs.{Socket, Answers, Net, create_tcp}
use sylar_net_server_framewo.Sock.Steps.{accept, close, listen, bind}
use sylar_net_server_framewo.Sock.Timeouts.{set_socket_timeout}

-- What is scheduled on the listener and on the worker.
pub data Task : Type 0 where
  start_listen : Net → Task
  close_sockets : Task
  handle_client : Socket → Task

-- `gone` are the sockets that were destroyed, after their destructor; the tasks stand in the order in
-- which they were scheduled.
pub record TcpServer : Type 0 where
  pub running : Bool
  pub recv_timeout : ℕ
  pub socks : List Net
  pub gone : List Net
  pub listener : List Task
  pub worker : List Task

-- `TcpServer::TcpServer`
abbrev pub tcp_server : TcpServer
tcp_server = record {
  running = false;
  recv_timeout = 60 * 1000 * 2;
  socks = [];
  gone = [];
  listener = [];
  worker = [];
}

-- `SOMAXCONN`
abbrev pub somaxconn : ℕ
somaxconn = 4096

-- An address to bind, with the path of a Unix address and the answers of its system calls.
pub record Binding : Type 0 where
  pub address : Address
  pub path : List ℕ
  pub answers : Answers

-- The socket of one round of `bind`: whether it binds and listens, and what it has become.
unfoldable pub bind_one : Binding → Bool × Net
bind_one b =
    let start : Net = record { self = create_tcp b.address; calls = [] } in
    let r = bind b.answers b.address b.path start in
    if not r.0 then (false, r.1) else listen b.answers somaxconn r.1

-- `~Socket`
abbrev pub destroyed : Net → Net
destroyed n = (close n).1

-- The loop of `TcpServer::bind`: `fails`, `failFlag` and the server.
unfoldable pub bind_loop :
    List Binding → List Address → Bool → TcpServer → List Address × Bool × TcpServer
bind_loop [] fails fail_flag s = (fails, fail_flag, s)
bind_loop (b ∷ bs) fails fail_flag s =
    let r = bind_one b in
    let failed =
      bind_loop bs (fails ++ b.address ∷ []) true
        (record s { gone = s.gone ++ destroyed r.1 ∷ [] }) in
    let bound = bind_loop bs fails fail_flag (record s { socks = s.socks ++ r.1 ∷ [] }) in
    if not r.0 then failed else bound

-- `TcpServer::bind`, for the addresses in `bs`: what it returns, `fails` and the server
unfoldable pub bind_all : List Binding → List Address → TcpServer → Bool × List Address × TcpServer
bind_all bs fails s =
    let r = bind_loop bs fails false s in
    if r.1
    then (false, r.0, record r.2 { socks = []; gone = r.2.gone ++ map destroyed r.2.socks })
    else (true, r.0, r.2)

-- `TcpServer::bind`, for one address
unfoldable pub bind_address : Binding → TcpServer → Bool × TcpServer
bind_address b s = let r = bind_all (b ∷ []) [] s in (r.0, r.2)

-- `TcpServer::start`: what it does to the server. Past the first test it has no `return`.
unfoldable pub started : TcpServer → TcpServer
started s =
    if s.running
    then s
    else record s { running = true; listener = s.listener ++ map start_listen s.socks }

unfoldable pub start : TcpServer → Checked (Bool × TcpServer)
start s = if s.running then ok (true, s) else undefined

-- `TcpServer::stop`, and the task that it schedules
unfoldable pub stop : TcpServer → TcpServer
stop s = record s { running = false; listener = s.listener ++ close_sockets ∷ [] }

unfoldable pub run_close_sockets : TcpServer → TcpServer
run_close_sockets s = record s { socks = []; gone = s.gone ++ map destroyed s.socks }

-- `TcpServer::~TcpServer`
unfoldable pub destroy_server : TcpServer → TcpServer
destroy_server s = record s { socks = []; gone = s.gone ++ map destroyed s.socks }

-- One round of the loop of `startListen`: the answers of `accept`.
pub record Round : Type 0 where
  pub answers : Answers
  pub accepted : Option ℕ
  pub ctx : Option FdCtx

-- What a round does with the client that it got.
abbrev pub hand_over :
    Kernel → Option Socket → TcpServer × FdManager → Checked (TcpServer × FdManager)
hand_over k none w = ok w
hand_over k (some client) w = set_socket_timeout k true (pos w.0.recv_timeout) client w.1 >>= λ m.
    ok (record w.0 { worker = w.0.worker ++ handle_client client ∷ [] }, m)

-- `TcpServer::startListen` over the rounds for which the server is running
unfoldable pub listen_loop :
    Kernel → List Round → Net → TcpServer × FdManager → Checked (Net × TcpServer × FdManager)
listen_loop k [] sock w = ok (sock, w.0, w.1)
listen_loop k (r ∷ rs) sock w =
    let a = accept r.answers r.accepted r.ctx sock in
    hand_over k a.0 w >>= λ w'. listen_loop k rs a.1 w'
