-- ===== src/Addr/Lookup.antt =====
-- `Address::Lookup` and the functions on it, `IPAddress::Create` and the interfaces
-- (socket/address.cpp). What `getaddrinfo` and `getifaddrs` answer is a parameter.
use sylar_net_server_framewo.Common.{
  ℕ, zero, suc, Bool, true, false, not, ◌&&◌, ◌||◌, Option, none, some, List, [], ◌∷◌, ◌++◌, map,
  ◌==◌, if◌then◌else◌, get_elem?,
}
use sylar_net_server_framewo.Common.Checked.{Checked, ok, undefined, ◌>>=◌}
use sylar_net_server_framewo.Bytes.State.{Endian}
use sylar_net_server_framewo.Addr.Defs.{
  RawAddress, inet, inet6, other, Address, ipv4_address, ipv6_address, unix_address,
  unknown_address, create, count_bytes, af_inet, af_inet6, set_port, ipv4,
  byteswap_on_little_endian,
}
use sylar_net_server_framewo.Addr.V6.{count_octets, ipv6_any}
use sylar_net_server_framewo.Addr.Text.{colon_char, bracket_open, bracket_close}

-- `memchr`: what stands before the first `c`, and what stands behind it.
unfoldable pub split_at : ℕ → List ℕ → Option (List ℕ × List ℕ)
split_at c [] = none
split_at c (x ∷ s) =
    let rest : Option (List ℕ × List ℕ) = elim (split_at c s) [
      | none ↦ none
      | some r ↦ some (x ∷ r.0, r.1)
    ] in
    if x == c then some ([], s) else rest

-- `*(endipv6 + 1) == ':'`, with `service = endipv6 + 2`; behind the end of the string is a zero.
abbrev pub service_after : List ℕ → Option (List ℕ)
service_after [] = none
service_after (x ∷ s) = if x == colon_char then some s else none

-- The node and the service after the first `if` of `Lookup`.
abbrev pub bracketed : List ℕ → List ℕ × Option (List ℕ)
bracketed [] = ([], none)
bracketed (x ∷ s) =
    if x == bracket_open
    then elim (split_at bracket_close s) [ none ↦ ([], none) | some r ↦ (r.0, service_after r.1) ]
    else ([], none)

abbrev pub is_empty : List ℕ → Bool
is_empty [] = true
is_empty (x ∷ s) = false

-- `if(node.empty()) { ... }`, for the port behind the first colon
abbrev pub at_colon : List ℕ → List ℕ × Option (List ℕ) → List ℕ × Option (List ℕ)
at_colon host r =
    if is_empty r.0
    then elim (split_at colon_char host) [ none ↦ (r.0, none) | some p ↦ (p.0, some p.1) ]
    else r

-- `if(node.empty()) { node = host; }`
unfoldable pub split_host : List ℕ → List ℕ × Option (List ℕ)
split_host host = let r = at_colon host (bracketed host) in if is_empty r.0 then (host, r.1) else r

-- `c_str()`: the text up to a zero in it.
unfoldable pub up_to_zero : List ℕ → List ℕ
up_to_zero [] = []
up_to_zero (zero ∷ s) = []
up_to_zero (suc c ∷ s) = suc c ∷ up_to_zero s

-- The hints: `ai_flags`, `ai_family`, `ai_socktype` and `ai_protocol`.
pub record Hints : Type 0 where
  pub numeric_host : Bool
  pub ai_family : ℕ
  pub ai_socktype : ℕ
  pub ai_protocol : ℕ

-- `getaddrinfo`, with the node, the service and the hints: an error, or a list of addresses.
abbrev pub Resolver : Type 0
Resolver = List ℕ → Option (List ℕ) → Hints → Option (List (Option RawAddress))

-- `Address::Lookup`: what it returns, and `result` after it.
unfoldable pub lookup :
    Resolver → List (Option Address) → List ℕ → ℕ → ℕ → ℕ → Bool × List (Option Address)
lookup getaddrinfo result host family type protocol =
    let r = split_host host in
    let service : Option (List ℕ) = elim r.1 [ none ↦ none | some s ↦ some (up_to_zero s) ] in
    let hints : Hints = record {
      numeric_host = false;
      ai_family = family;
      ai_socktype = type;
      ai_protocol = protocol;
    } in
    elim (getaddrinfo (up_to_zero r.0) service hints) [
      | none ↦ (false, result)
      | some results ↦ (true, result ++ map create results)
    ]

-- `Address::LookupAny`: `result[0]` of an empty vector is undefined.
unfoldable pub lookup_any : Resolver → List ℕ → ℕ → ℕ → ℕ → Checked (Option Address)
lookup_any getaddrinfo host family type protocol =
    let r = lookup getaddrinfo [] host family type protocol in
    if r.0 then elim (get_elem? r.1 0) [ none ↦ undefined | some a ↦ ok a ] else ok none

-- `std::dynamic_pointer_cast<IPAddress>`
abbrev pub as_ip : Option Address → Option Address
as_ip none = none
as_ip (some (ipv4_address a)) = some (ipv4_address a)
as_ip (some (ipv6_address a)) = some (ipv6_address a)
as_ip (some (unix_address p n)) = none
as_ip (some (unknown_address a)) = none

-- `Address::LookupAnyIPAddress`: the end of the function has no `return`.
unfoldable pub first_ip : List (Option Address) → Checked Address
first_ip [] = undefined
first_ip (a ∷ as') = elim (as_ip a) [ none ↦ first_ip as' | some v ↦ ok v ]

unfoldable pub lookup_any_ip : Resolver → List ℕ → ℕ → ℕ → ℕ → Checked Address
lookup_any_ip getaddrinfo host family type protocol =
    let r = lookup getaddrinfo [] host family type protocol in
    if r.0 then first_ip r.1 else undefined

-- `setPort` of either kind of `IPAddress`
abbrev pub set_ip_port : Endian → ℕ → Address → Address
set_ip_port host v (ipv4_address a) = ipv4_address (set_port host v a)
set_ip_port host v (ipv6_address a) =
    ipv6_address (record a { sin6_port = byteswap_on_little_endian host 2 v })
set_ip_port host v (unix_address p n) = unix_address p n
set_ip_port host v (unknown_address a) = unknown_address a

-- `IPAddress::Create`, where `results` of a success is not empty
unfoldable pub ip_create : Endian → Resolver → List ℕ → ℕ → Checked (Option Address)
ip_create host getaddrinfo address port =
    let hints : Hints = record {
      numeric_host = true;
      ai_family = 0;
      ai_socktype = 0;
      ai_protocol = 0;
    } in
    elim (getaddrinfo address none hints) [
      | none ↦ ok none
      | some [] ↦ undefined
      | some (r ∷ rs) ↦
          ok (elim (as_ip (create r)) [ none ↦ none | some a ↦ some (set_ip_port host port a) ])
    ]

-- An entry of `getifaddrs`: the name, the address, and the mask's `s_addr` and octets.
pub record Interface : Type 0 where
  pub ifa_name : List ℕ
  pub ifa_addr : Option RawAddress
  pub netmask : ℕ
  pub netmask6 : List ℕ

abbrev pub raw_family : RawAddress → ℕ
raw_family (inet a) = af_inet
raw_family (inet6 a) = af_inet6
raw_family (other a) = a.sa_family

-- An address with its prefix length
abbrev pub Prefixed : Type 0
Prefixed = Address × Option ℕ

-- `_addr` and `prefix_len` of one entry; `_addr` is null for the other families.
abbrev pub interface_address : Interface → RawAddress → Option Prefixed
interface_address i (inet a) = some (ipv4_address a, count_bytes 32 i.netmask)
interface_address i (inet6 a) = some (ipv6_address a, count_octets i.netmask6)
interface_address i (other a) = none

-- The loop of `Address::GetInterfaceAddresses`, appending to the entries of the multimap. An entry
-- without an address is dereferenced all the same.
unfoldable pub interface_loop : ℕ → List Interface → Checked (List (List ℕ × Prefixed))
interface_loop family [] = ok []
interface_loop family (i ∷ rest) = elim i.ifa_addr [
  | none ↦ undefined
  | some raw ↦ interface_loop family rest >>= λ entries.
      if not (family == 0) && not (family == raw_family raw)
      then ok entries
      else elim (interface_address i raw) [
        | none ↦ ok entries
        | some a ↦ ok ((i.ifa_name, a) ∷ entries)
      ]
]

abbrev pub same_text : List ℕ → List ℕ → Bool
same_text [] [] = true
same_text [] (y ∷ ys) = false
same_text (x ∷ xs) [] = false
same_text (x ∷ xs) (y ∷ ys) = (x == y) && same_text xs ys

-- `equal_range`: the entries of a name, in their order
unfoldable pub entries_of : List ℕ → List (List ℕ × Prefixed) → List Prefixed
entries_of name [] = []
entries_of name (e ∷ es) =
    let rest = entries_of name es in if same_text e.0 name then e.1 ∷ rest else rest

-- `Address::GetInterfaceByName`: what it returns, and what it appends to `result`. `interfaces` is
-- none where `getifaddrs` fails.
unfoldable pub get_interface_by_name :
    Endian → Option (List Interface) → List ℕ → ℕ → Checked (Bool × List Prefixed)
get_interface_by_name host interfaces iface family =
    if is_empty iface || same_text iface (42 ∷ [])
    then ok (
      true,
      (if (family == af_inet) || (family == 0)
            then (ipv4_address (ipv4 host 0 0), some 0) ∷ []
            else [])
          ++ (if (family == af_inet6) || (family == 0)
              then (ipv6_address ipv6_any, some 0) ∷ []
              else []),
    )
    else elim interfaces [
      | none ↦ ok (false, [])
      | some list ↦ interface_loop family list >>= λ entries. ok (true, entries_of iface entries)
    ]
