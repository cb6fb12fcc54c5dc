-- ===== src/Addr/Groups.antt =====
-- The text of an IPv6 address: `IPv6Address::print` (socket/address.cpp) and the form that it stands in.
use sylar_net_server_framewo.Common.{
  ℕ, zero, suc, ◌≡◌, refl, sym, ap, subst, ◌⊎◌, inl, inr, true, false, some, List, [], ◌∷◌, ◌++◌,
  map, arith, ◌==◌, replicate, and_false,
}
use mathlib.Core.List.{append-nil}
use sylar_net_server_framewo.Addr.V6.{
  Token, colon, group, print_groups, print_address6, last_is_zero, was_zero,
}

-- Each group behind a colon.
abbrev tail : List ℕ → List Token
tail [] = []
tail (g ∷ gs) = colon ∷ group g ∷ tail gs

-- Groups with colons between them.
abbrev pub joined : List ℕ → List Token
joined [] = []
joined (g ∷ gs) = group g ∷ tail gs

-- The groups that a text of tokens stands for: all of them are written, or `::` stands for a run of
-- zeros.
pub data Denotes : List Token → List ℕ → Type 0 where
  full : (gs : List ℕ) → Denotes (joined gs) gs
  compressed :
      (before after : List ℕ) (k : ℕ)
      → Denotes
          (joined before ++ (colon ∷ colon ∷ joined after))
          (before ++ (replicate (suc k) 0 ++ after))

suc_not_zero : (n : ℕ) → (suc n == 0) ≡ false
suc_not_zero n = ground arith

module _ (swap : ℕ → ℕ) where
  -- After the zeros were used.
  groups_used :
      (p : ℕ) (gs : List ℕ) → print_groups swap true (some p) gs ≡ (tail (map swap gs), true)
  unfolding print_groups
  groups_used p [] = refl
  groups_used p (g ∷ gs) =
      rw (and_false (g == 0), and_false (was_zero (some p)), groups_used g gs) refl

  -- Behind a zero, the zeros not yet used.
  groups_zero :
      (gs : List ℕ)
      → (k : ℕ) × (rest : List ℕ) × (gs ≡ replicate k 0 ++ rest)
        × (((rest ≡ [])
              × (print_groups swap false (some 0) gs ≡ ([], false))
              × (last_is_zero (some 0) gs ≡ true))
            ⊎ (print_groups swap false (some 0) gs
                ≡ (colon ∷ colon ∷ joined (map swap rest), true)))
  unfolding print_groups
  groups_zero [] = (0, [], refl, inl (refl, refl, refl))
  groups_zero (zero ∷ gs) = let (k, rest, e, c) = groups_zero gs in (suc k, rest, ap (◌∷◌ 0) e, c)
  groups_zero (suc g ∷ gs) =
      (0, suc g ∷ gs, refl, inr (rw (suc_not_zero g, groups_used (suc g) gs) refl))

  -- Behind a group that is not zero, before any zero.
  groups_lead :
      (p : ℕ) (gs : List ℕ)
      → (print_groups swap false (some (suc p)) gs ≡ (tail (map swap gs), false))
          × (last_is_zero (some (suc p)) gs ≡ false)
        ⊎ (before : List ℕ) × (k : ℕ) × (after : List ℕ) × (gs
            ≡ before ++ (replicate (suc k) 0 ++ after))
          × ((after ≡ [])
                × (print_groups swap false (some (suc p)) gs ≡ (tail (map swap before), false))
                × (last_is_zero (some (suc p)) gs ≡ true)
              ⊎ (print_groups swap false (some (suc p)) gs
                  ≡ (tail (map swap before) ++ (colon ∷ colon ∷ joined (map swap after)), true)))
  unfolding print_groups
  groups_lead p [] = inl (refl, suc_not_zero p)
  groups_lead p (zero ∷ gs) =
      let (k, after, e, c) = groups_zero gs in
      elim c [
        | inl (none_left, t, l) ↦ inr ([], k, after, ap (◌∷◌ 0) e, inl (none_left, t, l))
        | inr t ↦ inr ([], k, after, ap (◌∷◌ 0) e, inr t)
      ]
  groups_lead p (suc g ∷ gs) = elim (groups_lead g gs) [
    | inl (t, l) ↦ inl (rw (suc_not_zero g, suc_not_zero p, t) refl, l)
    | inr (before, k, after, e, inl (none_left, t, l)) ↦ inr (
      suc g ∷ before,
      k,
      after,
      ap (◌∷◌ (suc g)) e,
      inl (none_left, rw (suc_not_zero g, suc_not_zero p, t) refl, l),
    )
    | inr (before, k, after, e, inr t) ↦ inr (
      suc g ∷ before,
      k,
      after,
      ap (◌∷◌ (suc g)) e,
      inr (rw (suc_not_zero g, suc_not_zero p, t) refl),
    )
  ]

  module _ (keep : swap 0 ≡ 0) where
    swapped_groups :
        (before after : List ℕ) (k : ℕ)
        → map swap (before ++ (replicate (suc k) 0 ++ after))
          ≡ map swap before ++ (replicate (suc k) 0 ++ map swap after)
    swapped_groups (g ∷ before) after k = ap (◌∷◌ (swap g)) (swapped_groups before after k)
    swapped_groups [] after k = zeros (suc k)
      where
        zeros : (n : ℕ) → map swap (replicate n 0 ++ after) ≡ replicate n 0 ++ map swap after
        zeros zero = refl
        zeros (suc n) = rw (keep, zeros n) refl

    Denotes-compressed :
        (gs before after : List ℕ) (k : ℕ)
        → gs ≡ before ++ (replicate (suc k) 0 ++ after)
        → print_address6 swap gs
          ≡ joined (map swap before) ++ (colon ∷ colon ∷ joined (map swap after))
        → Denotes (print_address6 swap gs) (map swap gs)
    Denotes-compressed gs before after k e t =
        rw (t, e, swapped_groups before after k) (compressed (map swap before) (map swap after) k)

    -- What `print` writes between the brackets stands for the words of the address, each in the
    -- machine's order, provided there is a word: all of them are written, or one run of zeros is `::`.
    pub print_address6-Denotes :
        (g : ℕ) (gs : List ℕ) → Denotes (print_address6 swap (g ∷ gs)) (map swap (g ∷ gs))
    unfolding print_address6 print_groups
    print_address6-Denotes zero gs =
        let (k, after, e, c) = groups_zero gs in
        elim c [
          | inl (none_left, t, l) ↦
              Denotes-compressed (0 ∷ gs) [] after k (ap (◌∷◌ 0) e) (rw (none_left, t, l) refl)
          | inr t ↦ Denotes-compressed (0 ∷ gs) [] after k (ap (◌∷◌ 0) e) (rw t (append-nil _))
        ]
    print_address6-Denotes (suc g) gs = elim (groups_lead g gs) [
      | inl (t, l) ↦
          rw (suc_not_zero g, t, l)
            (subst (λ x. Denotes x (map swap (suc g ∷ gs))) (sym (append-nil _))
              (full (map swap (suc g ∷ gs))))
      | inr (before, k, after, e, inl (none_left, t, l)) ↦
          Denotes-compressed (suc g ∷ gs) (suc g ∷ before) after k (ap (◌∷◌ (suc g)) e)
            (rw (none_left, suc_not_zero g, t, l) refl)
      | inr (before, k, after, e, inr t) ↦
          Denotes-compressed (suc g ∷ gs) (suc g ∷ before) after k (ap (◌∷◌ (suc g)) e)
            (rw (suc_not_zero g, t) (append-nil _))
    ]
