-- ===== src/Addr/Text.antt =====
-- `print` of the addresses (socket/address.cpp). Texts are lists of character codes.
use sylar_net_server_framewo.Common.{
  ℕ, zero, suc, ◌+◌, ◌-◌, ◌/◌, ◌%◌, ◌^◌, List, [], ◌∷◌, ◌++◌, leb, ltb, if◌then◌else◌, length, take,
}
use sylar_net_server_framewo.Common.Checked.{◌>>=◌, Checked, ok, undefined}
use sylar_net_server_framewo.Bytes.State.{Endian}
use sylar_net_server_framewo.Bytes.Words.{from_memory}
use sylar_net_server_framewo.Addr.Defs.{
  SockaddrIn, SockaddrIn6, Sockaddr, Address, ipv4_address, ipv6_address, unix_address,
  unknown_address, byteswap_on_little_endian,
}
use sylar_net_server_framewo.Addr.V6.{Token, colon, group, print_address6}

-- `0` to `9` and `a` to `f`
unfoldable pub digit_char : ℕ → ℕ
digit_char d = if ltb d 10 then d + 48 else d + 87

-- A stream's text of a number in base `base`, of at most `more` digits and one.
unfoldable pub number_text : ℕ → ℕ → ℕ → List ℕ
number_text base zero n = digit_char (n % base) ∷ []
number_text base (suc more) n =
    let rest = number_text base more (n / base) in
    if ltb n base then digit_char n ∷ [] else rest ++ digit_char (n % base) ∷ []

-- A number of 32 bits has at most 10 decimal digits, one of 16 bits at most 4 hexadecimal ones.
abbrev pub decimal : ℕ → List ℕ
decimal n = number_text 10 9 n

abbrev pub hexadecimal : ℕ → List ℕ
hexadecimal n = number_text 16 3 n

abbrev pub colon_char : ℕ
colon_char = 58

abbrev pub bracket_open : ℕ
bracket_open = 91

abbrev pub bracket_close : ℕ
bracket_close = 93

-- The four numbers of `IPv4Address::print`
unfoldable pub dotted : ℕ → List ℕ
dotted addr =
    decimal (addr / 2 ^ 24 % 256)
    ++ (46 ∷ decimal (addr / 2 ^ 16 % 256)
        ++ (46 ∷ decimal (addr / 2 ^ 8 % 256) ++ (46 ∷ decimal (addr % 256))))

-- `IPv4Address::print`
unfoldable pub print4 : Endian → SockaddrIn → List ℕ
print4 host a =
    dotted (byteswap_on_little_endian host 4 a.s_addr)
    ++ (colon_char ∷ decimal (byteswap_on_little_endian host 2 a.sin_port))

unfoldable pub token_text : List Token → List ℕ
token_text [] = []
token_text (colon ∷ ts) = colon_char ∷ token_text ts
token_text (group n ∷ ts) = hexadecimal n ++ token_text ts

-- The octets as 16-bit words of the machine
unfoldable pub words : Endian → List ℕ → List ℕ
words host [] = []
words host (x ∷ []) = []
words host (x ∷ y ∷ octets) = from_memory host (x ∷ y ∷ []) ∷ words host octets

-- What `IPv6Address::print` writes between its brackets
abbrev pub groups_text : Endian → SockaddrIn6 → List ℕ
groups_text host a =
    token_text (print_address6 (byteswap_on_little_endian host 2) (words host a.s6_addr))

-- `IPv6Address::print`
unfoldable pub print6 : Endian → SockaddrIn6 → List ℕ
print6 host a =
    bracket_open ∷ groups_text host a
    ++ (bracket_close ∷ colon_char ∷ decimal (byteswap_on_little_endian host 2 a.sin6_port))

-- A C string: up to the zero. There is none behind the end of the memory.
unfoldable pub c_string : List ℕ → Checked (List ℕ)
c_string [] = undefined
c_string (zero ∷ s) = ok []
c_string (suc c ∷ s) = c_string s >>= λ rest. ok (suc c ∷ rest)

-- `UnixAddress::print`, and the same text as `getPath`: an abstract name stands behind `\0`.
unfoldable pub get_path : List ℕ → ℕ → Checked (List ℕ)
get_path [] m_length = undefined
get_path (zero ∷ name) m_length =
    if ltb 2 m_length
    then (if leb (m_length - 2 - 1) (length name)
        then ok (92 ∷ 48 ∷ take (m_length - 2 - 1) name)
        else undefined)
    else c_string (zero ∷ name)
get_path (suc c ∷ name) m_length = c_string (suc c ∷ name)

-- `UnknownAddress::print`
unfoldable pub print_unknown : Sockaddr → List ℕ
print_unknown a =
    (91 ∷ 85 ∷ 110 ∷ 107 ∷ 110 ∷ 111 ∷ 119 ∷ 110 ∷ 65 ∷ 100 ∷ 100 ∷ 114 ∷ 101 ∷ 115 ∷ 115 ∷ 32 ∷ 102
      ∷ 97 ∷ 109 ∷ 105 ∷ 108 ∷ 121 ∷ 61 ∷ [])
    ++ (decimal a.sa_family ++ (bracket_close ∷ []))

-- `Address::toString`
unfoldable pub to_string : Endian → Address → Checked (List ℕ)
to_string host (ipv4_address a) = ok (print4 host a)
to_string host (ipv6_address a) = ok (print6 host a)
to_string host (unix_address sun_path m_length) = get_path sun_path m_length
to_string host (unknown_address a) = ok (print_unknown a)
