-- ===== src/Sock/States.antt =====
-- The states that a socket goes through, and the descriptors that it opens and closes
-- (socket/socket.cpp).
use sylar_net_server_framewo.Common.{
  ℕ, ◌+◌, ◌≡◌, false, not, ◌&&◌, Option, none, some, List, [], ◌∷◌, ◌==◌, if◌then◌else◌,
}
use sylar_net_server_framewo.Fds.Defs.{FdCtx}
use sylar_net_server_framewo.Addr.Defs.{Address}
use sylar_net_server_framewo.Sock.Defs.{
  Socket, socket, Call, opened, set_reuse_address, set_no_delay, bound, connecting, listening,
  closed, unlinked, Answers, Net, is_valid, get_local_address, get_remote_address,
}
use sylar_net_server_framewo.Sock.Steps.{accept, close, connect, reconnect, listen, bind}

-- One call of a method by the owner of a socket.
pub data Step (n : Net) : Net → Type 0 where
  binds : (a : Answers) (address : Address) (path : List ℕ) → Step n (bind a address path n).1
  connects :
      (a : Answers) (address : Address) (timeout_ms : ℕ) → Step n (connect a address timeout_ms n).1
  reconnects : (a : Answers) (timeout_ms : ℕ) → Step n (reconnect a timeout_ms n).1
  listens : (a : Answers) (backlog : ℕ) → Step n (listen a backlog n).1
  closes : Step n (close n).1
  names_local : (a : Answers) → Step n (get_local_address a n).1
  names_remote : (a : Answers) → Step n (get_remote_address a n).1
  accepts :
      (a : Answers) (accepted : Option ℕ) (ctx : Option FdCtx) → Step n (accept a accepted ctx n).1

-- The states of a socket that starts without a descriptor, and of one that `accept` has made: the calls
-- that count for it start with the opening of the descriptor that it was given.
pub data Reached (family type protocol : ℕ) : Net → Type 0 where
  fresh : Reached family type protocol (record { self = socket family type protocol; calls = [] })
  then_step :
      (n n' : Net) → Reached family type protocol n → Step n n' → Reached family type protocol n'
  accepted_by :
      (a : Answers) (fd : ℕ) (ctx : Option FdCtx) (client : Socket) (n : Net)
      → Reached family type protocol n
      → (accept a (some fd) ctx n).0 ≡ some client
      → Reached family type protocol (record { self = client; calls = opened (some fd) ∷ [] })

-- How often a descriptor was opened and closed.
abbrev pub same_sock : Option ℕ → ℕ → ℕ
same_sock none fd = 0
same_sock (some g) fd = if g == fd then 1 else 0

abbrev pub opens_of : ℕ → List Call → ℕ
opens_of fd [] = 0
opens_of fd (opened s ∷ cs) = same_sock s fd + opens_of fd cs
opens_of fd (set_reuse_address s ∷ cs) = opens_of fd cs
opens_of fd (set_no_delay s ∷ cs) = opens_of fd cs
opens_of fd (bound s a ∷ cs) = opens_of fd cs
opens_of fd (connecting s a t ∷ cs) = opens_of fd cs
opens_of fd (listening s b ∷ cs) = opens_of fd cs
opens_of fd (closed g ∷ cs) = opens_of fd cs
opens_of fd (unlinked p ∷ cs) = opens_of fd cs

abbrev pub closes_of : ℕ → List Call → ℕ
closes_of fd [] = 0
closes_of fd (opened s ∷ cs) = closes_of fd cs
closes_of fd (set_reuse_address s ∷ cs) = closes_of fd cs
closes_of fd (set_no_delay s ∷ cs) = closes_of fd cs
closes_of fd (bound s a ∷ cs) = closes_of fd cs
closes_of fd (connecting s a t ∷ cs) = closes_of fd cs
closes_of fd (listening s b ∷ cs) = closes_of fd cs
closes_of fd (closed g ∷ cs) = same_sock (some g) fd + closes_of fd cs
closes_of fd (unlinked p ∷ cs) = closes_of fd cs

-- What was opened is closed, or held by the socket or by others; a connected socket holds a
-- descriptor.
pub record Accounted (others : ℕ → ℕ) (n : Net) : Type 0 where
  pub balanced :
      (fd : ℕ) → opens_of fd n.calls ≡ closes_of fd n.calls + (same_sock n.self.sock fd + others fd)
  pub held : (n.self.connected && not (is_valid n.self)) ≡ false
