-- ===== src/Addr/Order.antt =====
-- The order of addresses: `operator<`, `operator==` and `operator!=` of `Address`
-- (socket/address.cpp).
use sylar_net_server_framewo.Common.{
  length-take, ℕ, zero, suc, ◌≤◌, ◌≡◌, refl, ap, ◌∙◌, subst, inl, inr, Bool, true, false, not, ◌&&◌,
  List, [], ◌∷◌, min, arith, ltb, ◌==◌, if◌then◌else◌, length, take, Bool-cases,
}
use sylar_net_server_framewo.Common.Checked.{Checked, ok, aborted, undefined, ◌>>=◌}
use sylar_net_server_framewo.Bytes.State.{Endian}
use sylar_net_server_framewo.Addr.Defs.{Address}
use sylar_net_server_framewo.Addr.Lookup.{same_text}
use sylar_net_server_framewo.Addr.Unix.{get_addr, get_addr_len}

-- The sign of what `memcmp` gives.
pub data Sign : Type 0 where
  negative null positive : Sign

-- `memcmp`, which may not read behind the end of the memory
unfoldable pub memcmp : List ℕ → List ℕ → ℕ → Checked Sign
memcmp xs ys zero = ok null
memcmp [] ys (suc n) = undefined
memcmp (x ∷ xs) [] (suc n) = undefined
memcmp (x ∷ xs) (y ∷ ys) (suc n) =
    let rest = memcmp xs ys n in
    if ltb x y then ok negative else if ltb y x then ok positive else rest

-- What `operator<` makes of a comparison and of the lengths.
abbrev pub by_length : ℕ → ℕ → Sign → Checked Bool
by_length m n negative = ok true
by_length m n positive = ok false
by_length m n null = ok (ltb m n)

-- `operator<`
unfoldable pub less : Endian → Address → Address → Checked Bool
less host a b =
    memcmp (get_addr host a) (get_addr host b) (min (get_addr_len a) (get_addr_len b))
    >>= by_length (get_addr_len a) (get_addr_len b)

-- `operator==` and `operator!=`
unfoldable pub equal : Endian → Address → Address → Checked Bool
equal host a b =
    let same = memcmp (get_addr host a) (get_addr host b) (get_addr_len a) >>= λ result.
    elim result [ negative ↦ ok false | positive ↦ ok false | null ↦ ok true ] in
    if get_addr_len a == get_addr_len b then same else ok false

unfoldable pub not_equal : Endian → Address → Address → Checked Bool
not_equal host a b = equal host a b >>= λ e. ok (not e)

-- The length is not more than the structure has.
abbrev pub Fits : Endian → Address → Type 0
Fits host a = get_addr_len a ≤ length (get_addr host a)

-- What an address is compared by: the bytes of its length.
abbrev pub key : Endian → Address → List ℕ
key host a = take (get_addr_len a) (get_addr host a)

-- The order of a dictionary.
unfoldable pub before : List ℕ → List ℕ → Bool
before [] [] = false
before [] (y ∷ ys) = true
before (x ∷ xs) [] = false
before (x ∷ xs) (y ∷ ys) = if ltb x y then true else if ltb y x then false else before xs ys

memcmp-before :
    (xs ys : List ℕ) (m n k : ℕ)
    → k ≡ min m n
    → m ≤ length xs
    → n ≤ length ys
    → (memcmp xs ys k >>= by_length m n) ≡ ok (before (take m xs) (take n ys))
unfolding memcmp before
memcmp-before xs ys zero zero zero e h g = refl
memcmp-before xs (y ∷ ys) zero (suc n) zero e h g = ap ok (ground arith)
memcmp-before xs [] zero (suc n) zero e h g = absurd (omega arith)
memcmp-before (x ∷ xs) ys (suc m) zero zero e h g = ap ok (ground arith)
memcmp-before [] ys (suc m) zero zero e h g = absurd (omega arith)
memcmp-before xs ys (suc m) (suc n) zero e h g = absurd (omega arith)
memcmp-before xs ys zero n (suc k) e h g = absurd (omega arith)
memcmp-before xs ys (suc m) zero (suc k) e h g = absurd (omega arith)
memcmp-before [] ys (suc m) (suc n) (suc k) e h g = absurd (omega arith)
memcmp-before (x ∷ xs) [] (suc m) (suc n) (suc k) e h g = absurd (omega arith)
memcmp-before (x ∷ xs) (y ∷ ys) (suc m) (suc n) (suc k) e h g =
    let ih = memcmp-before xs ys m n k (omega arith) (omega arith) (omega arith) in
    elim (Bool-cases (ltb x y)) [
      | inl lt ↦ rw lt refl
      | inr ge ↦ elim (Bool-cases (ltb y x)) [
        | inl gt ↦ rw (ge, gt) refl
        | inr same ↦ rw (ge, same) (step (memcmp xs ys k) ih)
      ]
    ]
  where
    step :
        (r : Checked Sign)
        → (r >>= by_length m n) ≡ ok (before (take m xs) (take n ys))
        → (r >>= by_length (suc m) (suc n)) ≡ ok (before (take m xs) (take n ys))
    step (ok negative) q = q
    step (ok positive) q = q
    step (ok null) q = ap ok (ground arith) ∙ q
    step aborted q = cc
    step undefined q = cc

-- On addresses whose lengths fit, `operator<` is the order of a dictionary on the bytes.
pub less-before :
    (host : Endian) (a b : Address)
    → Fits host a
    → Fits host b
    → less host a b ≡ ok (before (key host a) (key host b))
unfolding less
less-before host a b h g =
    memcmp-before (get_addr host a) (get_addr host b) (get_addr_len a) (get_addr_len b) _ refl h g

memcmp-same :
    (xs ys : List ℕ) (m : ℕ)
    → m ≤ length xs
    → m ≤ length ys
    → (memcmp xs ys m >>= λ result. elim result [
      | negative ↦ ok false
      | positive ↦ ok false
      | null ↦ ok true
    ])
      ≡ ok (same_text (take m xs) (take m ys))
unfolding memcmp
memcmp-same xs ys zero h g = refl
memcmp-same [] ys (suc m) h g = absurd (omega arith)
memcmp-same (x ∷ xs) [] (suc m) h g = absurd (omega arith)
memcmp-same (x ∷ xs) (y ∷ ys) (suc m) h g = elim (Bool-cases (ltb x y)) [
  | inl lt ↦ let ne : (x == y) ≡ false = ground arith in rw (lt, ne) refl
  | inr ge ↦ elim (Bool-cases (ltb y x)) [
    | inl gt ↦ let ne : (x == y) ≡ false = ground arith in rw (ge, gt, ne) refl
    | inr same ↦
        let eq : (x == y) ≡ true = ground arith in
        rw (ge, same, eq) (memcmp-same xs ys m (omega arith) (omega arith))
  ]
]

pub same_text-eq : (xs ys : List ℕ) → same_text xs ys ≡ true → xs ≡ ys
same_text-eq [] [] e = refl
same_text-eq [] (y ∷ ys) e = cc
same_text-eq (x ∷ xs) [] e = cc
same_text-eq (x ∷ xs) (y ∷ ys) e = elim (Bool-cases (x == y)) [
  | inl eq ↦
      let p : x ≡ y = ground arith in
      let r : same_text xs ys ≡ true = subst (λ t. (t && same_text xs ys) ≡ true) eq e in
      λ i. p i ∷ same_text-eq xs ys r i
  | inr ne ↦ let e' : false ≡ true = subst (λ t. (t && same_text xs ys) ≡ true) ne e in cc
]

-- On addresses whose lengths fit, `operator==` says whether the bytes are the same.
pub equal-same_text :
    (host : Endian) (a b : Address)
    → Fits host a
    → Fits host b
    → equal host a b ≡ ok (same_text (key host a) (key host b))
unfolding equal
equal-same_text host a b h g = elim (Bool-cases (get_addr_len a == get_addr_len b)) [
  | inl eq ↦
      let p : get_addr_len b ≡ get_addr_len a = ground arith in
      rw (eq, p) (memcmp-same (get_addr host a) (get_addr host b) (get_addr_len a) h (omega arith))
  | inr ne ↦ elim (Bool-cases (same_text (key host a) (key host b))) [
    | inl same ↦
        let l = ap length (same_text-eq (key host a) (key host b) same) in
        let p : get_addr_len a ≡ get_addr_len b = omega (
          arith,
          length-take (get_addr_len a) (get_addr host a),
          length-take (get_addr_len b) (get_addr host b),
          l,
        ) in
        absurd (ground arith)
    | inr differ ↦ rw (ne, differ) refl
  ]
]
