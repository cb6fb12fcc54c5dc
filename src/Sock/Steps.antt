-- ===== src/Sock/Steps.antt =====
-- The methods of `Socket` that open, bind, connect and close it (socket/socket.cpp).
use sylar_net_server_framewo.Common.{
  ℕ, ◌-◌, ◌^◌, Bool, true, false, not, ◌&&◌, Option, none, some, List, ◌∷◌, ◌==◌, if◌then◌else◌,
}
use sylar_net_server_framewo.Fds.Defs.{FdCtx}
use sylar_net_server_framewo.Addr.Defs.{
  Address, ipv4_address, ipv6_address, unix_address, unknown_address, get_family,
}
use sylar_net_server_framewo.Sock.Defs.{
  Socket, socket, tcp, create_unix_tcp_socket, Call, opened, set_reuse_address, set_no_delay, bound,
  connecting, listening, closed, unlinked, Answers, Net, called, is_some, is_valid,
  get_local_address, get_remote_address,
}

-- `Socket::initSock`
unfoldable pub init_sock : Net → Net
init_sock n =
    let n' = called (set_reuse_address n.self.sock) n in
    if n.self.type == tcp then called (set_no_delay n.self.sock) n' else n'

-- `Socket::newSock`: `initSock` is called if there is no descriptor.
unfoldable pub new_sock : Option ℕ → Net → Net
new_sock opens n =
    let n' = record n { self = record n.self { sock = opens }; calls = opened opens ∷ n.calls } in
    if not (is_some opens) then init_sock n' else n'

-- `if(!isValid()) { newSock(); ... }`
abbrev pub ensure_sock : Option ℕ → Net → Net
ensure_sock opens n = if is_valid n.self then n else new_sock opens n

-- `Socket::init`, with the context that `FdManager::get` gives for the descriptor
unfoldable pub init : Answers → Option FdCtx → ℕ → Net → Bool × Net
init a ctx fd n = elim ctx [
  | none ↦ (false, n)
  | some c ↦
      if c.is_socket && not c.is_closed
      then (
        true,
        (get_remote_address a
            (get_local_address a (
              init_sock
                (record n { self = record n.self { sock = some fd; connected = true } }))).1).1,
      )
      else (false, n)
]

-- `Socket::accept`: the answer of `::accept`, the context of the new descriptor, and the calls of the
-- new socket behind those of this one.
unfoldable pub accept : Answers → Option ℕ → Option FdCtx → Net → Option Socket × Net
accept a accepted ctx n = elim accepted [
  | none ↦ (none, n)
  | some fd ↦
      let client : Net = record {
        self = socket n.self.family n.self.type n.self.protocol;
        calls = n.calls;
      } in
      let r = init a ctx fd client in
      (if r.0 then some r.1.self else none, record n { calls = r.1.calls })
]

-- `Socket::close`: true only if there was nothing to close.
unfoldable pub close : Net → Bool × Net
close n = if not n.self.connected && not (is_valid n.self) then (true, n) else elim n.self.sock [
  | none ↦ (false, record n { self = record n.self { connected = false } })
  | some fd ↦ (
    false,
    record n {
      self = record n.self { connected = false; sock = none };
      calls = closed fd ∷ n.calls;
    },
  )
]

-- `Socket::connect`, where the timeout -1 calls `::connect` and any other `connect_with_timeout`
unfoldable pub connect : Answers → Address → ℕ → Net → Bool × Net
connect a address timeout_ms n =
    let n₁ = ensure_sock a.opens n in
    let n₂ = record n₁ {
      self = record n₁.self { remote_address = some address };
      calls = connecting n₁.self.sock address timeout_ms ∷ n₁.calls;
    } in
    let n₃ = record n₂ { self = record n₂.self { connected = true } } in
    if not (is_valid n₁.self)
    then (false, n₁)
    else if not (get_family address == n.self.family)
    then (false, n₁)
    else if not a.connects
    then (false, (close n₂).1)
    else (true, (get_remote_address a (get_local_address a n₃).1).1)

-- `Socket::reconnect`
unfoldable pub reconnect : Answers → ℕ → Net → Bool × Net
reconnect a timeout_ms n = elim n.self.remote_address [
  | none ↦ (false, n)
  | some address ↦
      connect a address timeout_ms (record n { self = record n.self { local_address = none } })
]

-- `Socket::listen`
unfoldable pub listen : Answers → ℕ → Net → Bool × Net
listen a backlog n =
    if not (is_valid n.self)
    then (false, n)
    else (a.listens, called (listening n.self.sock backlog) n)

-- The Unix socket that `bind` connects, and its destructor: whether it connected, and the calls.
unfoldable pub probe : Answers → Address → List Call → Bool × List Call
probe a address calls =
    let r =
      connect (record a { opens = a.probe_opens; connects = a.probe_connects }) address (2 ^ 64 - 1)
        (record { self = create_unix_tcp_socket; calls = calls }) in
    (r.0, (close r.1).1.calls)

-- `::bind`, and `getLocalAddress` if it succeeds
unfoldable pub bind_checked : Answers → Address → Net → Bool × Net
bind_checked a address n =
    let n' = called (bound n.self.sock address) n in
    if not a.binds then (false, n') else (true, (get_local_address a n').1)

-- The rest of `bind`: a Unix address that answers is in use, and else its file goes.
unfoldable pub bind_path : Answers → Address → List ℕ → Net → Bool × Net
bind_path a (ipv4_address x) path n = bind_checked a (ipv4_address x) n
bind_path a (ipv6_address x) path n = bind_checked a (ipv6_address x) n
bind_path a (unknown_address x) path n = bind_checked a (unknown_address x) n
bind_path a (unix_address sun_path m_length) path n =
    let r = probe a (unix_address sun_path m_length) n.calls in
    if r.0
    then (false, record n { calls = r.1 })
    else bind_checked a (unix_address sun_path m_length) (record n { calls = unlinked path ∷ r.1 })

-- `Socket::bind`; `path` is what `getPath` of a Unix address gives.
unfoldable pub bind : Answers → Address → List ℕ → Net → Bool × Net
bind a address path n =
    let n₁ = ensure_sock a.opens n in
    if not (is_valid n₁.self)
    then (false, n₁)
    else if not (get_family address == n.self.family)
    then (false, n₁)
    else bind_path a address path n₁
