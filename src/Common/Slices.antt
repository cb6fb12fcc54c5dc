-- ===== src/Common/Slices.antt =====
-- Cutting lists, and writing a run of values over a part of a list (`memcpy` into a buffer).
use Prim.Native.Nat.{ℕ, zero, suc, ◌+◌, ◌≤◌, max}
use mathlib.Core.Path.{◌≡◌, refl, ap, sym, ◌∙◌}
use mathlib.Core.List.{List, [], ◌∷◌, ◌++◌}
use native.Mathlib.Omega.{arith}
use sylar_net_server_framewo.Common.Lists.{length, take, drop, length-take}

module _ {ℓ} {A : Type ℓ} where
  -- `memcpy(xs + n, bs, |bs|)`; what would lie past the end of `xs` is not written.
  abbrev pub overwrite : ℕ → List A → List A → List A
  overwrite n bs [] = []
  overwrite zero [] (x ∷ xs) = x ∷ xs
  overwrite zero (b ∷ bs) (x ∷ xs) = b ∷ overwrite zero bs xs
  overwrite (suc n) bs (x ∷ xs) = x ∷ overwrite n bs xs

  -- A write as a client sees it: it may extend the list.
  abbrev pub splice : ℕ → List A → List A → List A
  splice n bs xs = take n xs ++ (bs ++ drop (n + length bs) xs)

module _ {ℓ} {A : Type ℓ} where
  pub length-overwrite : (n : ℕ) (bs xs : List A) → length (overwrite n bs xs) ≡ length xs
  length-overwrite n bs [] = refl
  length-overwrite zero [] (x ∷ xs) = refl
  length-overwrite zero (b ∷ bs) (x ∷ xs) = ap suc (length-overwrite zero bs xs)
  length-overwrite (suc n) bs (x ∷ xs) = ap suc (length-overwrite n bs xs)

  pub overwrite-nil : (n : ℕ) (xs : List A) → overwrite n [] xs ≡ xs
  overwrite-nil n [] = refl
  overwrite-nil zero (x ∷ xs) = refl
  overwrite-nil (suc n) (x ∷ xs) = ap (◌∷◌ x) (overwrite-nil n xs)

  -- A write that ends within the first part.
  pub overwrite-append_left :
      (n : ℕ) (bs xs ys : List A)
      → n + length bs ≤ length xs
      → overwrite n bs (xs ++ ys) ≡ overwrite n bs xs ++ ys
  overwrite-append_left n [] xs ys h =
      overwrite-nil n (xs ++ ys) ∙ ap (λ t. t ++ ys) (sym (overwrite-nil n xs))
  overwrite-append_left n (b ∷ bs) [] ys h = absurd (omega arith)
  overwrite-append_left zero (b ∷ bs) (x ∷ xs) ys h =
      ap (◌∷◌ b) (overwrite-append_left zero bs xs ys (omega arith))
  overwrite-append_left (suc n) (b ∷ bs) (x ∷ xs) ys h =
      ap (◌∷◌ x) (overwrite-append_left n (b ∷ bs) xs ys (omega arith))

  -- A write that starts in the second part.
  pub overwrite-append_right :
      (n k : ℕ) (bs xs ys : List A)
      → k ≡ length xs + n
      → overwrite k bs (xs ++ ys) ≡ xs ++ overwrite n bs ys
  overwrite-append_right n k bs [] ys h = ap (λ t. overwrite t bs ys) {y = n} (omega arith)
  overwrite-append_right n zero bs (x ∷ xs) ys h = absurd (omega arith)
  overwrite-append_right n (suc k) bs (x ∷ xs) ys h =
      ap (◌∷◌ x) (overwrite-append_right n k bs xs ys (omega arith))

  -- A write that crosses from the first part into the second.
  pub overwrite-append_across :
      (n m : ℕ) (bs xs ys : List A)
      → n + m ≡ length xs
      → m ≤ length bs
      → overwrite n bs (xs ++ ys) ≡ overwrite n (take m bs) xs ++ overwrite 0 (drop m bs) ys
  overwrite-append_across zero zero bs [] ys h k = refl
  overwrite-append_across zero (suc m) bs [] ys h k = absurd (omega arith)
  overwrite-append_across (suc n) m bs [] ys h k = absurd (omega arith)
  overwrite-append_across zero zero bs (x ∷ xs) ys h k = absurd (omega arith)
  overwrite-append_across zero (suc m) [] (x ∷ xs) ys h k = absurd (omega arith)
  overwrite-append_across zero (suc m) (b ∷ bs) (x ∷ xs) ys h k =
      ap (◌∷◌ b) (overwrite-append_across zero m bs xs ys (omega arith) (omega arith))
  overwrite-append_across (suc n) m bs (x ∷ xs) ys h k =
      ap (◌∷◌ x) (overwrite-append_across n m bs xs ys (omega arith) k)

  pub take-append_left : (n : ℕ) (xs ys : List A) → n ≤ length xs → take n (xs ++ ys) ≡ take n xs
  take-append_left zero xs ys h = refl
  take-append_left (suc n) [] ys h = absurd (omega arith)
  take-append_left (suc n) (x ∷ xs) ys h = ap (◌∷◌ x) (take-append_left n xs ys (omega arith))

  pub take-append_right :
      (n k : ℕ) (xs ys : List A) → k ≡ length xs + n → take k (xs ++ ys) ≡ xs ++ take n ys
  take-append_right n k [] ys h = ap (λ t. take t ys) {y = n} (omega arith)
  take-append_right n zero (x ∷ xs) ys h = absurd (omega arith)
  take-append_right n (suc k) (x ∷ xs) ys h = ap (◌∷◌ x) (take-append_right n k xs ys (omega arith))

  pub drop-append_left :
      (n : ℕ) (xs ys : List A) → n ≤ length xs → drop n (xs ++ ys) ≡ drop n xs ++ ys
  drop-append_left zero xs ys h = refl
  drop-append_left (suc n) [] ys h = absurd (omega arith)
  drop-append_left (suc n) (x ∷ xs) ys h = drop-append_left n xs ys (omega arith)

  pub drop-append_right :
      (n k : ℕ) (xs ys : List A) → k ≡ length xs + n → drop k (xs ++ ys) ≡ drop n ys
  drop-append_right n k [] ys h = ap (λ t. drop t ys) {y = n} (omega arith)
  drop-append_right n zero (x ∷ xs) ys h = absurd (omega arith)
  drop-append_right n (suc k) (x ∷ xs) ys h = drop-append_right n k xs ys (omega arith)

  pub take-length : (xs : List A) → take (length xs) xs ≡ xs
  take-length [] = refl
  take-length (x ∷ xs) = ap (◌∷◌ x) (take-length xs)

  pub take-all : (n : ℕ) (xs : List A) → length xs ≤ n → take n xs ≡ xs
  take-all zero [] h = refl
  take-all zero (x ∷ xs) h = absurd (omega arith)
  take-all (suc n) [] h = refl
  take-all (suc n) (x ∷ xs) h = ap (◌∷◌ x) (take-all n xs (omega arith))

  pub drop-all : (n : ℕ) (xs : List A) → length xs ≤ n → drop n xs ≡ []
  drop-all zero [] h = refl
  drop-all zero (x ∷ xs) h = absurd (omega arith)
  drop-all (suc n) [] h = refl
  drop-all (suc n) (x ∷ xs) h = drop-all n xs (omega arith)

  pub take-nil : (n : ℕ) → take {A = A} n [] ≡ []
  take-nil zero = refl
  take-nil (suc n) = refl

  pub drop-nil : (n : ℕ) → drop {A = A} n [] ≡ []
  drop-nil zero = refl
  drop-nil (suc n) = refl

  -- Cutting out a part that ends within the first `m` values.
  pub take-drop-take :
      (k n m : ℕ) (xs : List A) → n + k ≤ m → take k (drop n (take m xs)) ≡ take k (drop n xs)
  take-drop-take zero n m xs h = refl
  take-drop-take (suc k) n zero xs h = absurd (omega arith)
  take-drop-take (suc k) zero (suc m) [] h = refl
  take-drop-take (suc k) zero (suc m) (x ∷ xs) h =
      ap (◌∷◌ x) (take-drop-take k zero m xs (omega arith))
  take-drop-take (suc k) (suc n) (suc m) [] h = refl
  take-drop-take (suc k) (suc n) (suc m) (x ∷ xs) h = take-drop-take (suc k) n m xs (omega arith)

  pub drop-drop : (k n : ℕ) (xs : List A) → drop k (drop n xs) ≡ drop (n + k) xs
  drop-drop k zero xs = ap (λ t. drop t xs) {y = zero + k} (omega arith)
  drop-drop k (suc n) [] = drop-nil k ∙ sym (drop-nil (suc n + k))
  drop-drop k (suc n) (x ∷ xs) =
      drop-drop k n xs ∙ ap (λ t. drop t (x ∷ xs)) {x = suc (n + k)} (omega arith)

  pub take-append-drop : (n : ℕ) (xs : List A) → take n xs ++ drop n xs ≡ xs
  take-append-drop zero xs = refl
  take-append-drop (suc n) [] = refl
  take-append-drop (suc n) (x ∷ xs) = ap (◌∷◌ x) (take-append-drop n xs)

  -- What was written is read back.
  pub take-drop-overwrite :
      (n : ℕ) (bs xs : List A)
      → n + length bs ≤ length xs
      → take (length bs) (drop n (overwrite n bs xs)) ≡ bs
  take-drop-overwrite zero [] xs h = refl
  take-drop-overwrite zero (b ∷ bs) [] h = absurd (omega arith)
  take-drop-overwrite zero (b ∷ bs) (x ∷ xs) h =
      ap (◌∷◌ b) (take-drop-overwrite zero bs xs (omega arith))
  take-drop-overwrite (suc n) [] [] h = refl
  take-drop-overwrite (suc n) (b ∷ bs) [] h = absurd (omega arith)
  take-drop-overwrite (suc n) bs (x ∷ xs) h = take-drop-overwrite n bs xs (omega arith)

  -- A write changes nothing past its end.
  pub drop-overwrite :
      (k n : ℕ) (bs xs : List A) → n + length bs ≤ k → drop k (overwrite n bs xs) ≡ drop k xs
  drop-overwrite k n bs [] h = refl
  drop-overwrite k zero [] (x ∷ xs) h = refl
  drop-overwrite zero zero (b ∷ bs) (x ∷ xs) h = absurd (omega arith)
  drop-overwrite (suc k) zero (b ∷ bs) (x ∷ xs) h = drop-overwrite k zero bs xs (omega arith)
  drop-overwrite zero (suc n) bs (x ∷ xs) h = absurd (omega arith)
  drop-overwrite (suc k) (suc n) bs (x ∷ xs) h = drop-overwrite k n bs xs (omega arith)

  -- Nor before its start.
  pub take-overwrite : (k n : ℕ) (bs xs : List A) → k ≤ n → take k (overwrite n bs xs) ≡ take k xs
  take-overwrite k n bs [] h = refl
  take-overwrite zero n bs (x ∷ xs) h = refl
  take-overwrite (suc k) zero bs (x ∷ xs) h = absurd (omega arith)
  take-overwrite (suc k) (suc n) bs (x ∷ xs) h = ap (◌∷◌ x) (take-overwrite k n bs xs (omega arith))

  -- A write cuts at any place behind it as if the rest were not there.
  pub take-overwrite_within :
      (k n : ℕ) (bs xs : List A)
      → n + length bs ≤ k
      → take k (overwrite n bs xs) ≡ overwrite n bs (take k xs)
  take-overwrite_within k n [] xs h =
      ap (take k) (overwrite-nil n xs) ∙ sym (overwrite-nil n (take k xs))
  take-overwrite_within zero n (b ∷ bs) xs h = absurd (omega arith)
  take-overwrite_within (suc k) n (b ∷ bs) [] h = refl
  take-overwrite_within (suc k) zero (b ∷ bs) (x ∷ xs) h =
      ap (◌∷◌ b) (take-overwrite_within k zero bs xs (omega arith))
  take-overwrite_within (suc k) (suc n) (b ∷ bs) (x ∷ xs) h =
      ap (◌∷◌ x) (take-overwrite_within k n (b ∷ bs) xs (omega arith))

  take-overwrite_front :
      (k m : ℕ) (bs xs : List A)
      → length bs ≤ length xs
      → k ≡ max m (length bs)
      → take k (overwrite 0 bs xs) ≡ bs ++ drop (length bs) (take m xs)
  take-overwrite_front k m [] xs h e =
      ap (take k) (overwrite-nil 0 xs) ∙ ap (λ t. take t xs) {y = m} (omega arith)
  take-overwrite_front k m (b ∷ bs) [] h e = absurd (omega arith)
  take-overwrite_front zero m (b ∷ bs) (x ∷ xs) h e = absurd (omega arith)
  take-overwrite_front (suc k) zero (b ∷ bs) (x ∷ xs) h e = ap (◌∷◌ b) (
      take-overwrite_front k 0 bs xs (omega arith) (omega arith)
      ∙ ap (λ t. bs ++ t) (drop-nil (length bs)))
  take-overwrite_front (suc k) (suc m) (b ∷ bs) (x ∷ xs) h e =
      ap (◌∷◌ b) (take-overwrite_front k m bs xs (omega arith) (omega arith))

  -- Writing into a buffer of which the first `m` values count is a splice on those values.
  pub take-overwrite-splice :
      (k n m : ℕ) (bs xs : List A)
      → n ≤ m
      → m ≤ length xs
      → n + length bs ≤ length xs
      → k ≡ max m (n + length bs)
      → take k (overwrite n bs xs) ≡ splice n bs (take m xs)
  take-overwrite-splice k zero m bs xs h l r e =
      take-overwrite_front k m bs xs (omega arith) (omega arith)
      ∙ ap (λ t. bs ++ drop t (take m xs)) {x = length bs} (omega arith)
  take-overwrite-splice k (suc n) m bs [] h l r e = absurd (omega arith)
  take-overwrite-splice zero (suc n) m bs (x ∷ xs) h l r e = absurd (omega arith)
  take-overwrite-splice (suc k) (suc n) zero bs (x ∷ xs) h l r e = absurd (omega arith)
  take-overwrite-splice (suc k) (suc n) (suc m) bs (x ∷ xs) h l r e =
      ap (◌∷◌ x)
        (take-overwrite-splice k n m bs xs (omega arith) (omega arith) (omega arith) (omega arith))
      ∙ ap (λ t. x ∷ (take n (take m xs) ++ (bs ++ drop t (x ∷ take m xs))))
          {x = suc (n + length bs)} (omega arith)

  -- Behind the cut a splice holds what was spliced in.
  pub take-drop-splice :
      (n : ℕ) (bs xs : List A) → n ≤ length xs → take (length bs) (drop n (splice n bs xs)) ≡ bs
  take-drop-splice n bs xs h =
      ap (take (length bs)) (
        drop-append_right 0 n (take n xs) (bs ++ drop (n + length bs) xs)
          (omega (arith, length-take n xs)))
      ∙ take-append_left (length bs) bs (drop (n + length bs) xs) (omega arith)
      ∙ take-length bs
