-- ===== src/Server/Clients.antt =====
-- The clients that `TcpServer::startListen` hands over to the worker (server/TCPserver.cpp).
use sylar_net_server_framewo.Common.{
  ℕ, zero, suc, ◌≡◌, refl, sym, ap, ◌∙◌, ◌⊎◌, inl, inr, true, false, not, ◌&&◌, Option, none, some,
  List, [], ◌∷◌, ◌++◌, ◌==◌, if◌then◌else◌, get_elem?, set, Bool-cases, Option-cases,
}
use mathlib.Core.List.{append_assoc, append-nil}
use sylar_net_server_framewo.Common.Checked.{ok, ◌>>=◌}
use sylar_net_server_framewo.Common.Int.{ℤ, pos, negsuc}
use sylar_net_server_framewo.Fds.Defs.{FdCtx, Kernel, FdManager, get, set_timeout}
use sylar_net_server_framewo.Fds.Slots.{IsValid, slot, slot-get}
use sylar_net_server_framewo.Sock.Defs.{
  Socket, Answers, Net, socket, get_local_address, get_remote_address,
}
use sylar_net_server_framewo.Sock.Steps.{accept, init, init_sock}
use sylar_net_server_framewo.Sock.Timeouts.{
  set_socket_timeout, context, context-known, pointed, fd_of, to_uint64, get_timeout-set_timeout,
}
use sylar_net_server_framewo.Sock.Connecting.{get_local_address-keeps}
use sylar_net_server_framewo.Server.Defs.{TcpServer, Task, handle_client, Round, listen_loop}

-- The descriptor that a round hands over: one that is known as an open socket.
pub good_of : Option ℕ → Option FdCtx → Option ℕ
good_of none ctx = none
good_of (some fd) none = none
good_of (some fd) (some c) = if c.is_socket && not c.is_closed then some fd else none

abbrev pub good : Round → Option ℕ
good r = good_of r.accepted r.ctx

-- The tasks that the rounds make: one for each good round, in the order of the rounds, with a
-- connected socket of that descriptor.
pub data Handed : List Round → List Task → Type 0 where
  no_rounds : Handed [] []
  skipped :
      (r : Round) (rs : List Round) (ts : List Task)
      → good r ≡ none
      → Handed rs ts
      → Handed (r ∷ rs) ts
  handed :
      (r : Round) (rs : List Round) (ts : List Task) (fd : ℕ) (client : Socket)
      → good r ≡ some fd
      → client.sock ≡ some fd
      → client.connected ≡ true
      → Handed rs ts
      → Handed (r ∷ rs) (handle_client client ∷ ts)

get_remote_address-keeps :
    (a : Answers) (n : Net)
    → ((get_remote_address a n).1.self.connected ≡ n.self.connected)
      × ((get_remote_address a n).1.self.sock ≡ n.self.sock)
unfolding get_remote_address
get_remote_address-keeps a n = elim (Option-cases n.self.remote_address) [
  | inl e ↦ elim (Option-cases a.peername) [
    | inl e' ↦ simp (get_remote_address, e, e') (refl, refl)
    | inr (k, e') ↦ simp (get_remote_address, e, e') (refl, refl)
  ]
  | inr (x, e) ↦ simp (get_remote_address, e) (refl, refl)
]

init_sock-keeps : (n : Net) → (init_sock n).self ≡ n.self
unfolding init_sock
init_sock-keeps n = elim (Bool-cases (n.self.type == 1)) [ inl e ↦ rw e refl | inr e ↦ rw e refl ]

-- What `accept` gives in a round.
accepted_socket :
    (a : Answers) (accepted : Option ℕ) (ctx : Option FdCtx) (n : Net)
    → (good_of accepted ctx ≡ none) × ((accept a accepted ctx n).0 ≡ none)
      ⊎ (fd : ℕ) × (client : Socket) × (good_of accepted ctx ≡ some fd)
        × ((accept a accepted ctx n).0 ≡ some client)
        × (client.sock ≡ some fd)
        × (client.connected ≡ true)
unfolding good_of accept init socket
accepted_socket a none ctx n = inl (refl, refl)
accepted_socket a (some fd) none n = inl (refl, refl)
accepted_socket a (some fd) (some c) n = elim (Bool-cases (c.is_socket && not c.is_closed)) [
  | inr bad ↦ inl (rw bad refl, rw bad refl)
  | inl fine ↦
      let start : Net = record {
        self = record (socket n.self.family n.self.type n.self.protocol) {
          sock = some fd;
          connected = true;
        };
        calls = n.calls;
      } in
      let named : Net = (get_local_address a (init_sock start)).1 in
      let client : Socket = (get_remote_address a named).1.self in
      let (remote, on, sock) = get_local_address-keeps a (init_sock start) in
      let (on', sock') = get_remote_address-keeps a named in
      inr (
        fd,
        client,
        rw fine refl,
        rw fine refl,
        sock' ∙ sock ∙ ap (λ t. t.sock) (init_sock-keeps start),
        on' ∙ on ∙ ap (λ t. t.connected) (init_sock-keeps start),
      )
]

slot_set :
    (heap : List FdCtx) (i j : ℕ) (c c' d : FdCtx)
    → get_elem? heap i ≡ some c
    → c'.fd ≡ c.fd
    → get_elem? heap j ≡ some d
    → (d' : FdCtx) × (get_elem? (set heap i c') j ≡ some d') × (d'.fd ≡ d.fd)
slot_set [] i j c c' d e f h = cc
slot_set (x ∷ heap) zero zero c c' d e f h = let p : c ≡ d = cc in (c', refl, f ∙ ap (λ t. t.fd) p)
slot_set (x ∷ heap) zero (suc j) c c' d e f h = (d, h, refl)
slot_set (x ∷ heap) (suc i) zero c c' d e f h = (d, h, refl)
slot_set (x ∷ heap) (suc i) (suc j) c c' d e f h = slot_set heap i j c c' d e f h

get_empty :
    (k : Kernel) (fd : ℕ) (m : FdManager)
    → slot m.datas fd ≡ none
    → get k (pos fd) false m ≡ ok (none, m)
unfolding get
get_empty k fd m h = elim (slot-get m.datas fd) [
  | inl (a, b, c) ↦ rw (get, a) refl
  | inr (a, b) ↦ rw (get, a, h) refl
]

no_context :
    (k : Kernel) (s : Socket) (m : FdManager) (o : Option ℕ)
    → s.sock ≡ o
    → get k (fd_of o) false m ≡ ok (none, m)
    → context k s m ≡ ok none
unfolding context
no_context k s m o e h =
    ap (λ f. get k (fd_of f) false m >>= λ r. pointed m r.0) e
    ∙ ap (λ t. t >>= λ r. pointed m r.0) h

get_minus_one : (k : Kernel) (m : FdManager) → get k (negsuc 0) false m ≡ ok (none, m)
unfolding get
get_minus_one k m = refl

-- On a valid table a timeout can be set on any socket, and the table stays valid.
set_socket_timeout-IsValid :
    (k : Kernel) (v : ℤ) (s : Socket) (m : FdManager)
    → IsValid m
    → (m' : FdManager) × (set_socket_timeout k true v s m ≡ ok m') × IsValid m'
unfolding set_socket_timeout
set_socket_timeout-IsValid k v s m valid = elim (Option-cases s.sock) [
  | inl e ↦ (m, rw (no_context k s m none e (get_minus_one k m)) refl, valid)
  | inr (fd, e) ↦ elim (Option-cases (slot m.datas fd)) [
    | inl h ↦ (m, rw (no_context k s m (some fd) e (get_empty k fd m h)) refl, valid)
    | inr (ptr, h) ↦
        let (c, q, f) = valid.owned fd ptr h in
        let c' : FdCtx = set_timeout true (to_uint64 v) c in
        let (same, other, d) = get_timeout-set_timeout true (to_uint64 v) c in
        let known = context-known k s fd ptr m c e h q in
        (
          record m { heap = set m.heap ptr c' },
          rw known refl,
          record {
            big = valid.big;
            owned = λ i p g.
                let (c₂, q₂, f₂) = valid.owned i p g in
                let (c₃, q₃, f₃) = slot_set m.heap ptr p c c' c₂ q d q₂ in (c₃, q₃, f₃ ∙ f₂);
          },
        )
  ]
]

-- On a valid descriptor table the loop of `startListen` goes through all of its rounds; the tasks that
-- it adds to the worker are a connected socket for each descriptor that was accepted and is known as
-- an open socket, in their order.
pub listen_loop-Handed :
    (k : Kernel) (rs : List Round) (sock : Net) (s : TcpServer) (m : FdManager)
    → IsValid m
    → (sock' : Net) × (m' : FdManager) × (ts : List Task) × (listen_loop k rs sock (s, m)
        ≡ ok (sock', record s { worker = s.worker ++ ts }, m'))
      × Handed rs ts
      × IsValid m'
unfolding listen_loop
listen_loop-Handed k [] sock s m v = (
  sock,
  m,
  [],
  λ i. ok (sock, record s { worker = sym (append-nil s.worker) i }, m),
  no_rounds,
  v,
)
listen_loop-Handed k (r ∷ rs) sock s m v =
    let next : Net = (accept r.answers r.accepted r.ctx sock).1 in
    elim (accepted_socket r.answers r.accepted r.ctx sock) [
      | inl (g, e) ↦
          let (sock', m', ts, q, h, v') = listen_loop-Handed k rs next s m v in
          (sock', m', ts, rw (e) q, skipped r rs ts g h, v')
      | inr (fd, client, g, e, c, d) ↦
          let (m₁, set_ok, v₁) = set_socket_timeout-IsValid k (pos s.recv_timeout) client m v in
          let s₁ : TcpServer = record s { worker = s.worker ++ handle_client client ∷ [] } in
          let (sock', m', ts, q, h, v') = listen_loop-Handed k rs next s₁ m₁ v₁ in
          (
            sock',
            m',
            handle_client client ∷ ts,
            rw (e, set_ok)
                (q ∙ λ i. ok (
                  sock',
                  record s { worker = append_assoc s.worker (handle_client client ∷ []) ts i },
                  m',
                )),
            handed r rs ts fd client g c d h,
            v',
          )
    ]
