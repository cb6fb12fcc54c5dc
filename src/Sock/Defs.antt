-- ===== src/Sock/Defs.antt =====
-- `Socket` and the methods that open, bind, connect and close it (socket/socket.cpp). What the system
-- calls answer is an argument of each method, and the calls that they make are logged.
use sylar_net_server_framewo.Common.{
  ℕ, Bool, true, false, Option, none, some, List, ◌∷◌, ◌==◌, if◌then◌else◌,
}
use sylar_net_server_framewo.Addr.Defs.{
  SockaddrIn, SockaddrIn6, Sockaddr, Address, ipv4_address, ipv6_address, unix_address,
  unknown_address, get_family, af_inet, af_inet6, af_unix,
}
use sylar_net_server_framewo.Addr.Unix.{unknown}

-- `Type` of a socket.
abbrev pub tcp : ℕ
tcp = 1

abbrev pub udp : ℕ
udp = 2

-- `m_sock` is none for -1.
pub record Socket : Type 0 where
  pub sock : Option ℕ
  pub type : ℕ
  pub family : ℕ
  pub protocol : ℕ
  pub connected : Bool
  pub local_address : Option Address
  pub remote_address : Option Address

-- `Socket::Socket` and the functions that call it
unfoldable pub socket : ℕ → ℕ → ℕ → Socket
socket family type protocol = record {
  sock = none;
  type = type;
  family = family;
  protocol = protocol;
  connected = false;
  local_address = none;
  remote_address = none;
}

unfoldable pub create_tcp : Address → Socket
create_tcp address = socket (get_family address) tcp 0

unfoldable pub create_udp : Address → Socket
create_udp address = socket (get_family address) udp 0

abbrev pub create_tcp_socket : Socket
create_tcp_socket = socket af_inet tcp 0

abbrev pub create_udp_socket : Socket
create_udp_socket = socket af_inet udp 0

abbrev pub create_tcp_socket6 : Socket
create_tcp_socket6 = socket af_inet6 tcp 0

abbrev pub create_udp_socket6 : Socket
create_udp_socket6 = socket af_inet6 udp 0

abbrev pub create_unix_tcp_socket : Socket
create_unix_tcp_socket = socket af_unix tcp 0

abbrev pub create_unix_udp_socket : Socket
create_unix_udp_socket = socket af_unix udp 0

-- The system calls that change something, each with the descriptor it is made on.
pub data Call : Type 0 where
  opened : Option ℕ → Call
  set_reuse_address set_no_delay : Option ℕ → Call
  bound : Option ℕ → Address → Call
  connecting : Option ℕ → Address → ℕ → Call
  listening : Option ℕ → ℕ → Call
  closed : ℕ → Call
  unlinked : List ℕ → Call

-- What `getsockname` and `getpeername` write into the structure of either family, and the length.
pub record KernelName : Type 0 where
  pub name_in : SockaddrIn
  pub name_in6 : SockaddrIn6
  pub sun_path : List ℕ
  pub name_other : Sockaddr
  pub name_len : ℕ

-- The answers. The Unix socket that `bind` tries to connect has its own two.
pub record Answers : Type 0 where
  pub opens : Option ℕ
  pub binds : Bool
  pub connects : Bool
  pub listens : Bool
  pub sockname : Option KernelName
  pub peername : Option KernelName
  pub probe_opens : Option ℕ
  pub probe_connects : Bool

-- A socket and the calls so far, the newest first.
pub record Net : Type 0 where
  pub self : Socket
  pub calls : List Call

abbrev pub called : Call → Net → Net
called c n = record n { calls = c ∷ n.calls }

abbrev pub is_some {ℓ} : {A : Type ℓ} → Option A → Bool
is_some none = false
is_some (some a) = true

-- `isValid` and `isConnected`
abbrev pub is_valid : Socket → Bool
is_valid s = is_some s.sock

-- The address that the switch on `m_family` makes, with the kernel's answer in it.
unfoldable pub named : ℕ → KernelName → Address
named family k =
    if family == af_inet
    then ipv4_address k.name_in
    else if family == af_inet6
    then ipv6_address k.name_in6
    else if family == af_unix
    then unix_address k.sun_path k.name_len
    else unknown_address k.name_other

-- `Socket::getLocalAddress` and `getRemoteAddress`: the address is kept only if the call succeeds.
unfoldable pub get_local_address : Answers → Net → Address × Net
get_local_address a n = elim n.self.local_address [
  | some address ↦ (address, n)
  | none ↦ elim a.sockname [
    | none ↦ (unknown n.self.family, n)
    | some k ↦
        let address = named n.self.family k in
        (address, record n { self = record n.self { local_address = some address } })
  ]
]

unfoldable pub get_remote_address : Answers → Net → Address × Net
get_remote_address a n = elim n.self.remote_address [
  | some address ↦ (address, n)
  | none ↦ elim a.peername [
    | none ↦ (unknown n.self.family, n)
    | some k ↦
        let address = named n.self.family k in
        (address, record n { self = record n.self { remote_address = some address } })
  ]
]
