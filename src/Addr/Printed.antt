-- ===== src/Addr/Printed.antt =====
-- What `Address::Lookup` takes out of the text of an IP address (socket/address.cpp).
use sylar_net_server_framewo.Common.{
  ℕ, ◌/◌, ◌%◌, ◌^◌, ◌≤◌, ◌<◌, ◌≡◌, refl, sym, ap, ◌∙◌, subst, false, some, List, [], ◌∷◌, ◌++◌, map,
  arith, ◌==◌, length, All,
}
use sylar_net_server_framewo.Bytes.State.{Endian, little, big}
use sylar_net_server_framewo.Bytes.Words.{
  byteswap, le_value-lt, le_bytes, length-reverse, length-le_bytes, All-reverse, IsByte-le_bytes,
}
use mathlib.Core.List.{reverse}
use sylar_net_server_framewo.Addr.Defs.{
  SockaddrIn, SockaddrIn6, get_port, byteswap_on_little_endian,
}
use sylar_net_server_framewo.Addr.Subnets.{number}
use sylar_net_server_framewo.Addr.Host.{swap-lt}
use sylar_net_server_framewo.Addr.V6.{Token, colon, group, print_address6}
use sylar_net_server_framewo.Addr.Groups.{Denotes, full, compressed, print_address6-Denotes}
use sylar_net_server_framewo.Addr.Text.{
  decimal, hexadecimal, dotted, print4, print6, token_text, colon_char, bracket_open, bracket_close,
  words,
}
use sylar_net_server_framewo.Addr.Lookup.{split_host}
use sylar_net_server_framewo.Addr.HostPort.{Free, split_host-port, split_host-bracketed}
use sylar_net_server_framewo.Addr.Digits.{
  Plain, All-map, Free-append, decimal-Free, number_text-Plain, number_text-starts, read_digits,
  read_digits-number_text, read_dotted, read_dotted-dotted,
}

dotted-Free : (n : ℕ) → Free colon_char (dotted n)
unfolding dotted
dotted-Free n =
    Free-append colon_char (decimal (n / 2 ^ 24 % 256)) _ (decimal-Free (n / 2 ^ 24 % 256)) (
      refl,
      Free-append colon_char (decimal (n / 2 ^ 16 % 256)) _ (decimal-Free (n / 2 ^ 16 % 256)) (
        refl,
        Free-append colon_char (decimal (n / 2 ^ 8 % 256)) _ (decimal-Free (n / 2 ^ 8 % 256))
            (refl, decimal-Free (n % 256)),
      ),
    )

decimal-starts :
    (n : ℕ) → (c : ℕ) × (s : List ℕ) × (decimal n ≡ c ∷ s) × ((c == bracket_open) ≡ false)
decimal-starts n =
    let (c, s, e) = number_text-starts 10 9 n in
    (c, s, e, (subst (All Plain) e (number_text-Plain 10 9 n)).0.1)

dotted-starts :
    (n : ℕ) → (c : ℕ) × (s : List ℕ) × (dotted n ≡ c ∷ s) × ((c == bracket_open) ≡ false)
unfolding dotted
dotted-starts n =
    let (c, s, e, b) = decimal-starts (n / 2 ^ 24 % 256) in
    let rest : List ℕ =
      46 ∷ decimal (n / 2 ^ 16 % 256)
      ++ (46 ∷ decimal (n / 2 ^ 8 % 256) ++ (46 ∷ decimal (n % 256))) in
    (c, s ++ rest, ap (λ t. t ++ rest) e, b)

-- A port of 16 bits
port-lt : (host : Endian) (v : ℕ) → v < 2 ^ 16 → byteswap_on_little_endian host 2 v < 2 ^ 32
unfolding byteswap_on_little_endian byteswap
port-lt big v h = omega arith
port-lt little v h =
    let small =
      le_value-lt (reverse (le_bytes 2 v)) 2 (length-reverse (le_bytes 2 v) ∙ length-le_bytes 2 v)
        (All-reverse (le_bytes 2 v) (IsByte-le_bytes 2 v)) in
    omega (arith, small)

pub swap-zero : (host : Endian) → byteswap_on_little_endian host 2 0 ≡ 0
unfolding byteswap_on_little_endian byteswap
swap-zero big = refl
swap-zero little = refl

-- From the text of an IPv4 address, `Lookup` takes a node that reads as the address and a service that
-- reads as the port.
pub split_host-print4 :
    (host : Endian) (a : SockaddrIn)
    → a.s_addr < 2 ^ 32
    → a.sin_port < 2 ^ 16
    → (node : List ℕ) × (service : List ℕ) × (split_host (print4 host a) ≡ (node, some service))
      × (read_dotted node ≡ some (number host a))
      × (read_digits 10 0 service ≡ get_port host a)
unfolding print4 get_port
split_host-print4 host a w p =
    let n = number host a in
    let port = byteswap_on_little_endian host 2 a.sin_port in
    let (c, s, e, b) = dotted-starts n in
    (
      c ∷ s,
      decimal port,
      ap (λ t. split_host (t ++ (colon_char ∷ decimal port))) e
          ∙ split_host-port c s (decimal port) b (subst (Free colon_char) e (dotted-Free n)),
      ap read_dotted (sym e) ∙ read_dotted-dotted n (swap-lt host a.s_addr w),
      read_digits-number_text 10 9 port (omega arith) (omega (arith, port-lt host a.sin_port p)),
    )

token_text-Free : (ts : List Token) → Free bracket_close (token_text ts)
unfolding token_text
token_text-Free [] = tt
token_text-Free (colon ∷ ts) = (refl, token_text-Free ts)
token_text-Free (group n ∷ ts) =
    Free-append bracket_close (hexadecimal n) (token_text ts)
      (All-map Plain (λ x. (x == bracket_close) ≡ false) (λ x p. p.2) (hexadecimal n)
        (number_text-Plain 16 3 n))
      (token_text-Free ts)

abbrev Starts : List ℕ → Type 0
Starts text = (c : ℕ) × (s : List ℕ) × (text ≡ c ∷ s)

group-Starts : (n : ℕ) (ts : List Token) → Starts (token_text (group n ∷ ts))
unfolding token_text
group-Starts n ts =
    let (c, s, e) = number_text-starts 16 3 n in
    (c, s ++ token_text ts, ap (λ t. t ++ token_text ts) e)

Denotes-nothing : (ts : List Token) (gs : List ℕ) → Denotes ts gs → ts ≡ [] → gs ≡ []
Denotes-nothing _ _ (full []) e = refl
Denotes-nothing _ _ (full (g ∷ gs)) e = cc
Denotes-nothing _ _ (compressed [] after k) e = cc
Denotes-nothing _ _ (compressed (b ∷ before) after k) e = cc

denoting-Starts :
    (ts : List Token) (g : ℕ) (gs : List ℕ) → Denotes ts (g ∷ gs) → Starts (token_text ts)
unfolding token_text
denoting-Starts [] g gs d = let e = Denotes-nothing [] (g ∷ gs) d refl in cc
denoting-Starts (colon ∷ ts) g gs d = (colon_char, token_text ts, refl)
denoting-Starts (group n ∷ ts) g gs d = group-Starts n ts

words-Starts : (host : Endian) (octets : List ℕ) → 2 ≤ length octets → Starts (words host octets)
unfolding words
words-Starts host [] h = absurd (omega arith)
words-Starts host (x ∷ []) h = absurd (omega arith)
words-Starts host (x ∷ y ∷ octets) h = (_, words host octets, refl)

-- From the text of an IPv6 address, `Lookup` takes the text of the groups, which stand for the words
-- of the address, and a service that reads as the port.
pub split_host-print6 :
    (host : Endian) (a : SockaddrIn6)
    → length a.s6_addr ≡ 16
    → a.sin6_port < 2 ^ 16
    → (tokens : List Token) × (service : List ℕ) × (split_host (print6 host a)
        ≡ (token_text tokens, some service))
      × Denotes tokens (map (byteswap_on_little_endian host 2) (words host a.s6_addr))
      × (read_digits 10 0 service ≡ byteswap_on_little_endian host 2 a.sin6_port)
unfolding print6
split_host-print6 host a w p =
    let swap : ℕ → ℕ = byteswap_on_little_endian host 2 in
    let tokens = print_address6 swap (words host a.s6_addr) in
    let port = swap a.sin6_port in
    let (g, gs, e) = words-Starts host a.s6_addr (omega arith) in
    let d : Denotes tokens (map swap (words host a.s6_addr)) =
      rw e (print_address6-Denotes swap (swap-zero host) g gs) in
    let (c, s, t) =
      denoting-Starts tokens (swap g) (map swap gs)
        (subst (λ x. Denotes tokens (map swap x)) e d) in
    (
      tokens,
      decimal port,
      ap (λ x. split_host (bracket_open ∷ x ++ (bracket_close ∷ colon_char ∷ decimal port))) t
          ∙ split_host-bracketed c s (decimal port)
              (subst (Free bracket_close) t (token_text-Free tokens))
          ∙ ap (λ x. (x, some (decimal port))) (sym t),
      d,
      read_digits-number_text 10 9 port (omega arith) (omega (arith, port-lt host a.sin6_port p)),
    )
