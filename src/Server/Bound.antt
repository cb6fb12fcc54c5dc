-- ===== src/Server/Bound.antt =====
-- `TcpServer::bind` (server/TCPserver.cpp): all of the addresses, or none.
use sylar_net_server_framewo.Common.{
  ◌≡◌, Bool, true, ◌&&◌, none, List, [], ◌∷◌, ◌++◌, if◌then◌else◌, All,
}
use sylar_net_server_framewo.Addr.Defs.{Address}
use sylar_net_server_framewo.Sock.Defs.{Net}
use sylar_net_server_framewo.Sock.States.{Accounted}
use sylar_net_server_framewo.Server.Defs.{TcpServer, Binding, bind_one, destroyed}

-- Whether every address works, and the addresses that do not.
pub all_work : List Binding → Bool
all_work [] = true
all_work (b ∷ bs) = (bind_one b).0 && all_work bs

pub failing : List Binding → List Address
failing [] = []
failing (b ∷ bs) = if (bind_one b).0 then failing bs else b.address ∷ failing bs

-- The sockets that work, and what becomes of the others.
abbrev pub bound_nets : List Binding → List Net
bound_nets [] = []
bound_nets (b ∷ bs) = if (bind_one b).0 then (bind_one b).1 ∷ bound_nets bs else bound_nets bs

abbrev pub failed_nets : List Binding → List Net
failed_nets [] = []
failed_nets (b ∷ bs) =
    if (bind_one b).0 then failed_nets bs else destroyed (bind_one b).1 ∷ failed_nets bs

abbrev looped : List Binding → TcpServer → TcpServer
looped bs s = record s { socks = s.socks ++ bound_nets bs; gone = s.gone ++ failed_nets bs }

-- A socket that accounts for its descriptors, and one that has closed all that it opened.
abbrev pub Owned : Net → Type 0
Owned n = Accounted (λ fd. 0) n

abbrev pub Closed : Net → Type 0
Closed n = (n.self.sock ≡ none) × Owned n

-- The server's sockets account for their descriptors, and those that are gone have closed all of them.
pub record Tidy (s : TcpServer) : Type 0 where
  pub owned : All Owned s.socks
  pub closed : All Closed s.gone
