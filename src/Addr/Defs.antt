-- ===== src/Addr/Defs.antt =====
-- The classes of addresses, `Address::Create`, `CreateMask`, `CountBytes` and `IPv4Address`
-- (socket/address.cpp). An object holds the socket address structure as the machine stores it, so
-- that ports and addresses are in network order there; `host` is the machine's byte order.
use sylar_net_server_framewo.Common.{
  ◌%◌, ◌-◌, bit_and, bit_or, ◌&&◌, ◌^◌, none, suc, ltb, some, leb, Option, replicate, if◌then◌else◌,
  List, ℕ, zero,
}
use sylar_net_server_framewo.Common.Checked.{undefined, ok, ◌>>=◌, Checked}
use sylar_net_server_framewo.Bytes.State.{Endian, little, big}
use sylar_net_server_framewo.Bytes.Words.{byteswap}

-- `sockaddr_in`, `sockaddr_in6`, `sockaddr_un` and `sockaddr`, each without its family, which says
-- which of them it is.
pub record SockaddrIn : Type 0 where
  pub sin_port : ℕ
  pub s_addr : ℕ
  pub sin_zero : List ℕ

pub record SockaddrIn6 : Type 0 where
  pub sin6_port : ℕ
  pub sin6_flowinfo : ℕ
  pub s6_addr : List ℕ
  pub sin6_scope_id : ℕ

pub record Sockaddr : Type 0 where
  pub sa_family : ℕ
  pub sa_data : List ℕ

-- What a `const sockaddr*` points to, by its family.
pub data RawAddress : Type 0 where
  inet : SockaddrIn → RawAddress
  inet6 : SockaddrIn6 → RawAddress
  other : Sockaddr → RawAddress

-- The subclasses. A Unix address has `sun_path` and `m_length`.
pub data Address : Type 0 where
  ipv4_address : SockaddrIn → Address
  ipv6_address : SockaddrIn6 → Address
  unix_address : List ℕ → ℕ → Address
  unknown_address : Sockaddr → Address

abbrev pub af_unix : ℕ
af_unix = 1

abbrev pub af_inet : ℕ
af_inet = 2

abbrev pub af_inet6 : ℕ
af_inet6 = 10

-- `Address::getFamily`
unfoldable pub get_family : Address → ℕ
get_family (ipv4_address a) = af_inet
get_family (ipv6_address a) = af_inet6
get_family (unix_address sun_path m_length) = af_unix
get_family (unknown_address a) = a.sa_family

-- `Address::Create`, `nullptr` as none
unfoldable pub create : Option RawAddress → Option Address
create none = none
create (some (inet a)) = some (ipv4_address a)
create (some (inet6 a)) = some (ipv6_address a)
create (some (other a)) = some (unknown_address a)

-- `CreateMask<T>`, for a `T` of `w` bits. The literal 1 is an `int`: the shift is undefined from 32
-- places on, and so is `1 << 31`, less 1.
unfoldable pub create_mask : ℕ → ℕ → Checked ℕ
create_mask w bits =
    if leb bits w && ltb (w - bits) 31 then ok ((2 ^ (w - bits) - 1) % 2 ^ w) else undefined

-- `CountBytes<T>`: the loop `for(; value; ++result)`. A value of `w` bits is 0 after `w` rounds.
unfoldable pub count_loop : ℕ → ℕ → ℕ → Option ℕ
count_loop fuel zero result = some result
count_loop zero (suc v) result = none
count_loop (suc fuel) (suc v) result = count_loop fuel (bit_and (suc v) v) (suc result)

unfoldable pub count_bytes : ℕ → ℕ → Option ℕ
count_bytes w value = count_loop w value 0

-- `byteswapOnLittleEndian`, of a value of `k` bytes
unfoldable pub byteswap_on_little_endian : Endian → ℕ → ℕ → ℕ
byteswap_on_little_endian little k t = byteswap k t
byteswap_on_little_endian big k t = t

-- `IPv4Address::IPv4Address(uint32_t, uint16_t)`
unfoldable pub ipv4 : Endian → ℕ → ℕ → SockaddrIn
ipv4 host address port = record {
  sin_port = byteswap_on_little_endian host 2 port;
  s_addr = byteswap_on_little_endian host 4 address;
  sin_zero = replicate 8 0;
}

-- `IPv4Address::Create`: `inet_pton` gives the address in network order, or fails.
unfoldable pub ipv4_create : Endian → (List ℕ → Option ℕ) → List ℕ → ℕ → Option SockaddrIn
ipv4_create host inet_pton address port = elim (inet_pton address) [
  | none ↦ none
  | some parsed ↦ some (record (ipv4 host 0 port) { s_addr = parsed })
]

-- `IPv4Address::broadcastAddress`, `networkAddress` and `subnetMask`
unfoldable pub broadcast_address : Endian → ℕ → SockaddrIn → Checked (Option SockaddrIn)
broadcast_address host prefix_len a =
    if ltb 32 prefix_len
    then ok none
    else create_mask 32 prefix_len >>= λ mask.
        ok (some (record a { s_addr = bit_or a.s_addr (byteswap_on_little_endian host 4 mask) }))

unfoldable pub network_address : Endian → ℕ → SockaddrIn → Checked (Option SockaddrIn)
network_address host prefix_len a =
    if ltb 32 prefix_len
    then ok none
    else create_mask 32 prefix_len >>= λ mask.
        ok (some (record a { s_addr = bit_and a.s_addr (byteswap_on_little_endian host 4 mask) }))

unfoldable pub subnet_mask : Endian → ℕ → Checked SockaddrIn
subnet_mask host prefix_len = create_mask 32 prefix_len >>= λ mask. ok (record {
  sin_port = 0;
  s_addr = 2 ^ 32 - 1 - byteswap_on_little_endian host 4 mask;
  sin_zero = replicate 8 0;
})

-- `IPv4Address::getPort` and `setPort`
unfoldable pub get_port : Endian → SockaddrIn → ℕ
get_port host a = byteswap_on_little_endian host 2 a.sin_port

unfoldable pub set_port : Endian → ℕ → SockaddrIn → SockaddrIn
set_port host v a = record a { sin_port = byteswap_on_little_endian host 2 v }
