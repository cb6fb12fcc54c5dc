-- ===== src/Addr/Digits.antt =====
-- The texts of numbers and of IPv4 addresses (socket/address.cpp), and what they read as.
use sylar_net_server_framewo.Common.{
  ℕ, zero, suc, ◌+◌, ◌-◌, ◌*◌, ◌/◌, ◌%◌, ◌^◌, ◌<◌, ◌≡◌, refl, ap, ◌∙◌, subst, inl, inr, false,
  Option, none, some, List, [], ◌∷◌, ◌++◌, arith, ltb, ◌==◌, if◌then◌else◌, All, All-append,
  Bool-cases,
}
use native.Mathlib.Nat.{pow-zero, one-mul, mod-eq_of_lt, div-lt_iff_lt-mul, pow-suc, div-add-mod'}
use sylar_net_server_framewo.Addr.Text.{
  digit_char, number_text, decimal, dotted, colon_char, bracket_open, bracket_close,
}
use sylar_net_server_framewo.Addr.Lookup.{split_at}
use sylar_net_server_framewo.Addr.HostPort.{Free, split_at-first}

-- What the texts of numbers are made of.
abbrev pub Plain : ℕ → Type 0
Plain c =
    ((c == colon_char) ≡ false)
    × ((c == bracket_open) ≡ false)
    × ((c == bracket_close) ≡ false)
    × ((c == 46) ≡ false)

digit_char-Plain : (d : ℕ) → Plain (digit_char d)
unfolding digit_char
digit_char-Plain d = elim (Bool-cases (ltb d 10)) [
  | inl small ↦ rw small (ground arith, ground arith, ground arith, ground arith)
  | inr large ↦ rw large (ground arith, ground arith, ground arith, ground arith)
]

pub number_text-Plain : (base more n : ℕ) → All Plain (number_text base more n)
unfolding number_text
number_text-Plain base zero n = (digit_char-Plain (n % base), tt)
number_text-Plain base (suc more) n = elim (Bool-cases (ltb n base)) [
  | inl small ↦ rw small (digit_char-Plain n, tt)
  | inr large ↦ rw large (
      All-append Plain (number_text base more (n / base)) (digit_char (n % base) ∷ [])
        (number_text-Plain base more (n / base)) (digit_char-Plain (n % base), tt))
]

-- A text of a number starts with a character.
pub number_text-starts :
    (base more n : ℕ) → (c : ℕ) × (s : List ℕ) × (number_text base more n ≡ c ∷ s)
unfolding number_text
number_text-starts base zero n = (digit_char (n % base), [], refl)
number_text-starts base (suc more) n = elim (Bool-cases (ltb n base)) [
  | inl small ↦ (digit_char n, [], rw small refl)
  | inr large ↦
      let (c, s, e) = number_text-starts base more (n / base) in
      (c, s ++ digit_char (n % base) ∷ [], rw (large, e) refl)
]

-- The value of a text of digits.
abbrev pub digit_value : ℕ → ℕ
digit_value c = if ltb c 58 then c - 48 else c - 87

pub read_digits : ℕ → ℕ → List ℕ → ℕ
read_digits base value [] = value
read_digits base value (c ∷ s) = read_digits base (value * base + digit_value c) s

read_digits-snoc :
    (base value : ℕ) (s : List ℕ) (c : ℕ)
    → read_digits base value (s ++ c ∷ []) ≡ read_digits base value s * base + digit_value c
unfolding read_digits
read_digits-snoc base value [] c = refl
read_digits-snoc base value (x ∷ s) c = read_digits-snoc base (value * base + digit_value x) s c

digit_value-digit_char : (d : ℕ) → digit_value (digit_char d) ≡ d
unfolding digit_char
digit_value-digit_char d = ground arith

-- The digits of a number that is not too large have its value.
pub read_digits-number_text :
    (base more n : ℕ)
    → 0 < base
    → n < base ^ suc more
    → read_digits base 0 (number_text base more n) ≡ n
unfolding number_text read_digits
read_digits-number_text base zero n b h =
    let small : n < base =
      subst (λ t. n < t) (pow-suc base 0 ∙ ap (λ (t : ℕ). t * base) (pow-zero base) ∙ one-mul base)
        h in
    rw (mod-eq_of_lt small, digit_value-digit_char n) (omega arith)
read_digits-number_text base (suc more) n b h = elim (Bool-cases (ltb n base)) [
  | inl small ↦ rw (small, digit_value-digit_char n) (omega arith)
  | inr large ↦
      let shorter : n / base < base ^ suc more =
        (div-lt_iff_lt-mul b).1 (subst (λ t. n < t) (pow-suc base (suc more)) h) in
      rw
        (
          large,
          read_digits-snoc base 0 (number_text base more (n / base)) (digit_char (n % base)),
          digit_value-digit_char (n % base),
          read_digits-number_text base more (n / base) b shorter,
        )
        (div-add-mod' n base)
]

pub Free-append : (c : ℕ) (s t : List ℕ) → Free c s → Free c t → Free c (s ++ t)
Free-append c s t = All-append (λ x. (x == c) ≡ false) s t

pub All-map : (P Q : ℕ → Type 0) → ((x : ℕ) → P x → Q x) → (s : List ℕ) → All P s → All Q s
All-map P Q f [] h = tt
All-map P Q f (x ∷ s) h = (f x h.0, All-map P Q f s h.1)

pub decimal-Free : (n : ℕ) → Free colon_char (decimal n)
decimal-Free n =
    All-map Plain (λ x. (x == colon_char) ≡ false) (λ x p. p.0) (decimal n)
      (number_text-Plain 10 9 n)

decimal-no_dot : (n : ℕ) → Free 46 (decimal n)
decimal-no_dot n =
    All-map Plain (λ x. (x == 46) ≡ false) (λ x p. p.3) (decimal n) (number_text-Plain 10 9 n)

-- The number that a dotted text has.
pub read_dotted : List ℕ → Option ℕ
read_dotted text = elim (split_at 46 text) [
  | none ↦ none
  | some a ↦ elim (split_at 46 a.1) [
    | none ↦ none
    | some b ↦ elim (split_at 46 b.1) [
      | none ↦ none
      | some c ↦ some (
          ((read_digits 10 0 a.0 * 256 + read_digits 10 0 b.0) * 256 + read_digits 10 0 c.0) * 256
          + read_digits 10 0 c.1)
    ]
  ]
]

read_byte : (n : ℕ) → n < 256 → read_digits 10 0 (decimal n) ≡ n
read_byte n h = read_digits-number_text 10 9 n (omega arith) (omega arith)

read_dotted-fields :
    (w x y z : List ℕ)
    → Free 46 w
    → Free 46 x
    → Free 46 y
    → (t u v : List ℕ) → v ≡ z
    → u ≡ y ++ 46 ∷ v
    → t ≡ x ++ 46 ∷ u
    → read_dotted (w ++ 46 ∷ t)
      ≡ some (
          ((read_digits 10 0 w * 256 + read_digits 10 0 x) * 256 + read_digits 10 0 y) * 256
          + read_digits 10 0 z)
unfolding read_dotted
read_dotted-fields w x y z hw hx hy t u v ev eu et =
    let first = split_at-first 46 w t hw in
    let second : split_at 46 t ≡ some (x, u) = ap (split_at 46) et ∙ split_at-first 46 x u hx in
    let third : split_at 46 u ≡ some (y, v) = ap (split_at 46) eu ∙ split_at-first 46 y v hy in
    rw (read_dotted, first, second, third, ev) refl

-- The dotted text of a number of 32 bits reads as that number.
pub read_dotted-dotted : (n : ℕ) → n < 2 ^ 32 → read_dotted (dotted n) ≡ some n
unfolding dotted
read_dotted-dotted n h =
    let a = n / 2 ^ 24 % 256 in
    let b = n / 2 ^ 16 % 256 in
    let c = n / 2 ^ 8 % 256 in
    let d = n % 256 in
    read_dotted-fields (decimal a) (decimal b) (decimal c) (decimal d) (decimal-no_dot a)
      (decimal-no_dot b) (decimal-no_dot c) (decimal b ++ (46 ∷ decimal c ++ (46 ∷ decimal d)))
      (decimal c ++ (46 ∷ decimal d)) (decimal d) refl refl refl
    ∙ rw
        (
          read_byte a (omega arith),
          read_byte b (omega arith),
          read_byte c (omega arith),
          read_byte d (omega arith),
        )
        (ap some (omega arith))
