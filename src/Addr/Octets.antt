-- ===== src/Addr/Octets.antt =====
-- `byteswap` (socket/endian.h) together with `&`, `|` and `~`, and the ones of a swapped value.
use sylar_net_server_framewo.Common.{
  ℕ, zero, suc, ◌+◌, ◌-◌, ◌*◌, ◌/◌, ◌%◌, ◌^◌, ◌<◌, ◌≡◌, refl, sym, ap, ◌∙◌, List, [], ◌∷◌, ◌++◌,
  map, arith, length, All,
}
use sylar_net_server_framewo.Common.Ones.{ones_in-zero, ones_in, ones_in-blocks}
use sylar_net_server_framewo.Bytes.Words.{
  All-reverse, IsByte-le_bytes, le_value-lt, length-reverse, le_value-le_bytes, le_value,
  le_bytes-byteswap, length-le_bytes, byteswap, le_bytes,
}
use native.Mathlib.Nat.{pow-suc}
use mathlib.Core.List.{reverse, reverse-cons}

zip_with : (ℕ → ℕ → ℕ) → List ℕ → List ℕ → List ℕ
zip_with op [] ys = []
zip_with op (x ∷ xs) [] = []
zip_with op (x ∷ xs) (y ∷ ys) = op x y ∷ zip_with op xs ys

zip_with-snoc :
    (op : ℕ → ℕ → ℕ) (xs ys : List ℕ) (x y : ℕ)
    → length xs ≡ length ys
    → zip_with op (xs ++ x ∷ []) (ys ++ y ∷ []) ≡ zip_with op xs ys ++ op x y ∷ []
unfolding zip_with
zip_with-snoc op [] [] x y h = refl
zip_with-snoc op [] (b ∷ ys) x y h = absurd (omega arith)
zip_with-snoc op (a ∷ xs) [] x y h = absurd (omega arith)
zip_with-snoc op (a ∷ xs) (b ∷ ys) x y h =
    ap (◌∷◌ (op a b)) (zip_with-snoc op xs ys x y (omega arith))

reverse-zip_with :
    (op : ℕ → ℕ → ℕ) (xs ys : List ℕ)
    → length xs ≡ length ys
    → reverse (zip_with op xs ys) ≡ zip_with op (reverse xs) (reverse ys)
unfolding zip_with
reverse-zip_with op [] [] h = refl
reverse-zip_with op [] (b ∷ ys) h = absurd (omega arith)
reverse-zip_with op (a ∷ xs) [] h = absurd (omega arith)
reverse-zip_with op (a ∷ xs) (b ∷ ys) h =
    rw
      (
        reverse-cons (op a b) (zip_with op xs ys),
        reverse-cons a xs,
        reverse-cons b ys,
        reverse-zip_with op xs ys (omega arith),
      )
      (sym (
        zip_with-snoc op (reverse xs) (reverse ys) a b
          (omega (arith, length-reverse xs, length-reverse ys))))

-- An operation that works byte by byte commutes with the swap.
module _ (op : ℕ → ℕ → ℕ)
    (bytes : (q r q' r' : ℕ)
      → r < 256
      → r' < 256
      → op (q * 256 + r) (q' * 256 + r') ≡ op q q' * 256 + op r r')
    (byte-lt : (a b : ℕ) → a < 256 → b < 256 → op a b < 256) where
  le_bytes-op : (k a b : ℕ) → le_bytes k (op a b) ≡ zip_with op (le_bytes k a) (le_bytes k b)
  unfolding le_bytes zip_with
  le_bytes-op zero a b = refl
  le_bytes-op (suc k) a b =
      let e = bytes (a / 256) (a % 256) (b / 256) (b % 256) (omega arith) (omega arith) in
      let ea : a / 256 * 256 + a % 256 ≡ a = omega arith in
      let eb : b / 256 * 256 + b % 256 ≡ b = omega arith in
      let f : op a b ≡ op (a / 256) (b / 256) * 256 + op (a % 256) (b % 256) =
        (λ i. op (sym ea i) (sym eb i)) ∙ e in
      let l = byte-lt (a % 256) (b % 256) (omega arith) (omega arith) in
      let low : op a b % 256 ≡ op (a % 256) (b % 256) = omega (arith, f, l) in
      let high : op a b / 256 ≡ op (a / 256) (b / 256) = omega (arith, f, l) in
      rw (low, high) (ap (◌∷◌ (op (a % 256) (b % 256))) (le_bytes-op k (a / 256) (b / 256)))

  pub byteswap-op :
      (k a b : ℕ)
      → op (byteswap k a) (byteswap k b) < 256 ^ k
      → byteswap k (op a b) ≡ op (byteswap k a) (byteswap k b)
  byteswap-op k a b h =
      let same : length (le_bytes k a) ≡ length (le_bytes k b) =
        length-le_bytes k a ∙ sym (length-le_bytes k b) in
      let e : reverse (le_bytes k (op a b)) ≡ le_bytes k (op (byteswap k a) (byteswap k b)) =
        ap reverse (le_bytes-op k a b)
        ∙ reverse-zip_with op (le_bytes k a) (le_bytes k b) same
        ∙ rw (sym (le_bytes-byteswap k a), sym (le_bytes-byteswap k b))
            (sym (le_bytes-op k (byteswap k a) (byteswap k b))) in
      unfold byteswap in ap le_value e ∙ le_value-le_bytes k (op (byteswap k a) (byteswap k b)) h

-- `~` commutes with the swap.
complement : ℕ → ℕ
complement b = 255 - b

le_bytes-complement :
    (k v : ℕ) → v < 256 ^ k → le_bytes k (256 ^ k - 1 - v) ≡ map complement (le_bytes k v)
unfolding le_bytes complement
le_bytes-complement zero v h = refl
le_bytes-complement (suc k) v h =
    let p : 256 ^ suc k ≡ 256 ^ k * 256 = pow-suc 256 k in
    let low : (256 ^ suc k - 1 - v) % 256 ≡ 255 - v % 256 = omega (arith, p) in
    let high : (256 ^ suc k - 1 - v) / 256 ≡ 256 ^ k - 1 - v / 256 = omega (arith, p) in
    rw (low, high) (ap (◌∷◌ (255 - v % 256)) (le_bytes-complement k (v / 256) (omega (arith, p))))

le_value-complement :
    (k : ℕ) (bs : List ℕ)
    → length bs ≡ k
    → All (λ b. b < 256) bs
    → le_value (map complement bs) ≡ 256 ^ k - 1 - le_value bs
unfolding le_value complement
le_value-complement zero [] e h = refl
le_value-complement zero (b ∷ bs) e h = absurd (omega arith)
le_value-complement (suc k) [] e h = absurd (omega arith)
le_value-complement (suc k) (b ∷ bs) e h =
    let small = le_value-lt bs k (omega arith) h.1 in
    omega (arith, le_value-complement k bs (omega arith) h.1, h.0, pow-suc 256 k, small)

map-snoc :
    (bs : List ℕ) (b : ℕ) → map complement (bs ++ b ∷ []) ≡ map complement bs ++ complement b ∷ []
map-snoc [] b = refl
map-snoc (x ∷ bs) b = ap (◌∷◌ (complement x)) (map-snoc bs b)

reverse-map : (bs : List ℕ) → reverse (map complement bs) ≡ map complement (reverse bs)
reverse-map [] = refl
reverse-map (b ∷ bs) =
    rw (reverse-cons (complement b) (map complement bs), reverse-cons b bs, reverse-map bs)
      (sym (map-snoc (reverse bs) b))

pub byteswap-complement :
    (k v : ℕ) → v < 256 ^ k → byteswap k (256 ^ k - 1 - v) ≡ 256 ^ k - 1 - byteswap k v
unfolding byteswap
byteswap-complement k v h =
    let bs = le_bytes k v in
    ap (λ t. le_value (reverse t)) (le_bytes-complement k v h)
    ∙ ap le_value (reverse-map bs)
    ∙ le_value-complement k (reverse bs) (length-reverse bs ∙ length-le_bytes k v)
        (All-reverse bs (IsByte-le_bytes k v))

-- The swap moves the ones.
ones_of_bytes : List ℕ → ℕ
ones_of_bytes [] = 0
ones_of_bytes (b ∷ bs) = ones_in 8 b + ones_of_bytes bs

ones_of_bytes-snoc :
    (bs : List ℕ) (b : ℕ) → ones_of_bytes (bs ++ b ∷ []) ≡ ones_of_bytes bs + ones_in 8 b
unfolding ones_of_bytes
ones_of_bytes-snoc [] b = omega arith
ones_of_bytes-snoc (x ∷ bs) b = omega (arith, ones_of_bytes-snoc bs b)

ones_of_bytes-reverse : (bs : List ℕ) → ones_of_bytes (reverse bs) ≡ ones_of_bytes bs
unfolding ones_of_bytes
ones_of_bytes-reverse [] = refl
ones_of_bytes-reverse (b ∷ bs) =
    rw (reverse-cons b bs, ones_of_bytes-snoc (reverse bs) b)
      (omega (arith, ones_of_bytes-reverse bs))

ones_in-le_value :
    (bs : List ℕ) (k : ℕ)
    → length bs ≡ k
    → All (λ b. b < 256) bs
    → ones_in (8 * k) (le_value bs) ≡ ones_of_bytes bs
unfolding le_value ones_of_bytes
ones_in-le_value [] zero e h = ones_in-zero 0
ones_in-le_value [] (suc k) e h = absurd (omega arith)
ones_in-le_value (b ∷ bs) zero e h = absurd (omega arith)
ones_in-le_value (b ∷ bs) (suc k) e h =
    let w : 8 * suc k ≡ 8 + 8 * k = omega arith in
    let v : b + 256 * le_value bs ≡ le_value bs * 2 ^ 8 + b = omega arith in
    rw (w, v, ones_in-blocks 8 (8 * k) (le_value bs) b h.0, ones_in-le_value bs k (omega arith) h.1)
      refl

pub ones_in-byteswap : (k v : ℕ) → v < 256 ^ k → ones_in (8 * k) (byteswap k v) ≡ ones_in (8 * k) v
unfolding byteswap
ones_in-byteswap k v h =
    let bs = le_bytes k v in
    let len : length bs ≡ k = length-le_bytes k v in
    let ok_bytes = IsByte-le_bytes k v in
    ones_in-le_value (reverse bs) k (length-reverse bs ∙ len) (All-reverse bs ok_bytes)
    ∙ ones_of_bytes-reverse bs
    ∙ sym (ones_in-le_value bs k len ok_bytes)
    ∙ ap (ones_in (8 * k)) (le_value-le_bytes k v h)
