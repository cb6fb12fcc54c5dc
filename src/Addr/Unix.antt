-- ===== src/Addr/Unix.antt =====
-- `UnixAddress` and `UnknownAddress`, and what the base class sees of an address: its memory and its
-- length (socket/address.cpp).
use sylar_net_server_framewo.Common.{
  ℕ, zero, suc, ◌+◌, ◌-◌, ◌<◌, ◌≡◌, refl, ap, ◌∙◌, inl, inr, Bool, true, false, Option, none, some,
  List, [], ◌∷◌, ◌++◌, arith, leb, ltb, ◌==◌, if◌then◌else◌, length, take, replicate, All,
  length-append, Bool-cases,
}
use sylar_net_server_framewo.Common.Checked.{ok}
use mathlib.Core.List.{append_assoc}
use sylar_net_server_framewo.Bytes.State.{Endian}
use sylar_net_server_framewo.Bytes.Words.{to_memory}
use sylar_net_server_framewo.Addr.Defs.{
  Address, ipv4_address, ipv6_address, unix_address, unknown_address, get_family,
}
use sylar_net_server_framewo.Addr.Text.{get_path, c_string}

-- `sizeof(m_addr.sun_path)`
abbrev pub path_size : ℕ
path_size = 108

-- `offsetof(sockaddr_un, sun_path)`
abbrev pub path_offset : ℕ
path_offset = 2

-- `UnixAddress::UnixAddress()`, with `MAX_PATH_LEN`
abbrev pub unix_any : Address
unix_any = unix_address (replicate path_size 0) (path_offset + (path_size - 1))

-- `path[0] == '\0'` of a path that is not empty
abbrev pub is_abstract : List ℕ → Bool
is_abstract [] = false
is_abstract (c ∷ path) = c == 0

-- `UnixAddress::UnixAddress(const std::string&)`, with none for the exception
unfoldable pub unix : List ℕ → Option Address
unix path =
    let m_length = if is_abstract path then length path else length path + 1 in
    if ltb path_size m_length
    then none
    else some (
        unix_address (take m_length (path ++ 0 ∷ []) ++ replicate (path_size - m_length) 0)
          (m_length + path_offset))

-- `UnixAddress::setAddrLen`
unfoldable pub set_addr_len : ℕ → Address → Address
set_addr_len v (ipv4_address a) = ipv4_address a
set_addr_len v (ipv6_address a) = ipv6_address a
set_addr_len v (unix_address sun_path m_length) = unix_address sun_path v
set_addr_len v (unknown_address a) = unknown_address a

-- `UnknownAddress::UnknownAddress(int)`
unfoldable pub unknown : ℕ → Address
unknown family = unknown_address (record { sa_family = family; sa_data = replicate 14 0 })

-- `getAddr`: the bytes of the structure
unfoldable pub get_addr : Endian → Address → List ℕ
get_addr host (ipv4_address a) =
    to_memory host 2 (get_family (ipv4_address a))
    ++ (to_memory host 2 a.sin_port ++ (to_memory host 4 a.s_addr ++ a.sin_zero))
get_addr host (ipv6_address a) =
    to_memory host 2 (get_family (ipv6_address a))
    ++ (to_memory host 2 a.sin6_port
        ++ (to_memory host 4 a.sin6_flowinfo ++ (a.s6_addr ++ to_memory host 4 a.sin6_scope_id)))
get_addr host (unix_address sun_path m_length) =
    to_memory host 2 (get_family (unix_address sun_path m_length)) ++ sun_path
get_addr host (unknown_address a) = to_memory host 2 a.sa_family ++ a.sa_data

-- `getAddrLen`
unfoldable pub get_addr_len : Address → ℕ
get_addr_len (ipv4_address a) = 16
get_addr_len (ipv6_address a) = 28
get_addr_len (unix_address sun_path m_length) = m_length
get_addr_len (unknown_address a) = 16

c_string-path : (path rest : List ℕ) → All (λ c. 0 < c) path → c_string (path ++ 0 ∷ rest) ≡ ok path
unfolding c_string
c_string-path [] rest h = refl
c_string-path (zero ∷ path) rest h = absurd (omega arith)
c_string-path (suc c ∷ path) rest h = rw (c_string-path path rest h.1) refl

take-append_all : (xs ys : List ℕ) → take (length xs) (xs ++ ys) ≡ xs
take-append_all [] ys = refl
take-append_all (x ∷ xs) ys = ap (◌∷◌ x) (take-append_all xs ys)

take-append_more : (xs : List ℕ) (y : ℕ) → take (suc (length xs)) (xs ++ y ∷ []) ≡ xs ++ y ∷ []
take-append_more [] y = refl
take-append_more (x ∷ xs) y = ap (◌∷◌ x) (take-append_more xs y)

-- The path of a Unix address is the path that it was made from, if that has no zero in it; from 108
-- characters on there is no such address.
pub unix-get_path :
    (c : ℕ) (path : List ℕ)
    → All (λ x. 0 < x) (c ∷ path)
    → if leb path_size (length (c ∷ path))
      then unix (c ∷ path) ≡ none
      else (sun_path : List ℕ) × (unix (c ∷ path)
          ≡ some (unix_address sun_path (length (c ∷ path) + 3)))
        × (get_path sun_path (length (c ∷ path) + 3) ≡ ok (c ∷ path))
unfolding unix get_path
unix-get_path zero path h = absurd (omega arith)
unix-get_path (suc c) path h =
    let full : List ℕ = suc c ∷ path in
    let n : ℕ = length full in
    let plain : (suc c == 0) ≡ false = ground arith in
    let next : n + 1 ≡ suc n = omega arith in
    let room : List ℕ = replicate (path_size - (n + 1)) 0 in
    elim (Bool-cases (leb path_size n)) [
      | inl big ↦
          let long : ltb path_size (n + 1) ≡ true = ground arith in rw (big, plain, long) refl
      | inr small ↦
          let short : ltb path_size (n + 1) ≡ false = ground arith in
          let memory : take (n + 1) (full ++ 0 ∷ []) ++ room ≡ full ++ (0 ∷ room) =
            ap (λ t. take t (full ++ 0 ∷ []) ++ room) next
            ∙ ap (λ t. t ++ room) (take-append_more full 0)
            ∙ append_assoc full (0 ∷ []) room in
          let size : n + 1 + path_offset ≡ n + 3 = omega arith in
          rw small (
            full ++ (0 ∷ room),
            rw (plain, short) (ap some (λ i. unix_address (memory i) (size i))),
            c_string-path full room h,
          )
    ]

-- An abstract name, behind a zero, is written behind `\0`; from 109 characters on there is no such
-- address.
pub unix-abstract :
    (name : List ℕ)
    → if leb path_size (length name)
      then unix (0 ∷ name) ≡ none
      else (sun_path : List ℕ) × (unix (0 ∷ name) ≡ some (unix_address sun_path (length name + 3)))
        × (get_path sun_path (length name + 3) ≡ ok (92 ∷ 48 ∷ name))
unfolding unix get_path
unix-abstract name =
    let n : ℕ = length name in
    let room : List ℕ = replicate (path_size - suc n) 0 in
    elim (Bool-cases (leb path_size n)) [
      | inl big ↦ let long : ltb path_size (suc n) ≡ true = ground arith in rw (big, long) refl
      | inr small ↦
          let short : ltb path_size (suc n) ≡ false = ground arith in
          let memory : take (suc n) ((0 ∷ name) ++ 0 ∷ []) ++ room ≡ 0 ∷ name ++ room =
            ap (λ t. 0 ∷ t ++ room) (take-append_all name (0 ∷ [])) in
          let size : suc n + path_offset ≡ n + 3 = omega arith in
          let behind : ltb 2 (n + 3) ≡ true = ground arith in
          let rest : n + 3 - 2 - 1 ≡ n = omega arith in
          let inside : leb n (length (name ++ room)) ≡ true =
            ground (arith, length-append name room) in
          rw small (
            0 ∷ name ++ room,
            rw short (ap some (λ i. unix_address (memory i) (size i))),
            rw (behind, rest, inside) (ap (λ t. ok (92 ∷ 48 ∷ t)) (take-append_all name room)),
          )
    ]
