-- ===== src/Config/Members.antt =====
-- What `ListAllMember` lists (config/config.cc).
use sylar_net_server_framewo.Common.{
  absurd_bool, ℕ, zero, suc, ◌<◌, ◌≡◌, ◌↔◌, refl, sym, ◌∙◌, subst, ◌⊎◌, inl, inr, true, false,
  Option, some, List, [], ◌∷◌, ◌++◌, arith, All, Bool-cases, All-weaken,
}
use sylar_net_server_framewo.Config.Yaml.{Yaml, Finite}
use sylar_net_server_framewo.Config.Defs.{is_name, join, list_entries, list_all_member}

pub data In {ℓ} {A : Type ℓ} (a : A) : List A → Type ℓ where
  here : (as' : List A) → In a (a ∷ as')
  there : (b : A) (as' : List A) → In a as' → In a (b ∷ as')

In-append_left {ℓ} : {A : Type ℓ} {a : A} (xs ys : List A) → In a xs → In a (xs ++ ys)
In-append_left _ ys (here as') = here (as' ++ ys)
In-append_left _ ys (there b as' h) = there b (as' ++ ys) (In-append_left as' ys h)

In-append_right {ℓ} : {A : Type ℓ} {a : A} (xs ys : List A) → In a ys → In a (xs ++ ys)
In-append_right [] ys h = h
In-append_right (x ∷ xs) ys h = there x (xs ++ ys) (In-append_right xs ys h)

In-append_cases {ℓ} : {A : Type ℓ} {a : A} (xs ys : List A) → In a (xs ++ ys) → In a xs ⊎ In a ys
In-append_cases [] ys h = inr h
In-append_cases (x ∷ xs) ys (here _) = inl (here xs)
In-append_cases (x ∷ xs) ys (there _ _ h) = elim (In-append_cases xs ys h) [
  | inl l ↦ inl (there x xs l)
  | inr r ↦ inr r
]

In-cons_cases {ℓ} : {A : Type ℓ} {a b : A} (as' : List A) → In a (b ∷ as') → (a ≡ b) ⊎ In a as'
In-cons_cases as' (here _) = inl refl
In-cons_cases as' (there _ _ h) = inr h

module _ (y : Yaml) where
  -- A member below a node: every name on the way to it has only the characters of names.
  pub data Member (key : List ℕ) (n : y.Node) : List ℕ → y.Node → Type 0 where
    itself : is_name key ≡ true → Member key n key n
    below :
        (prefix k : List ℕ) (node child : y.Node)
        → is_name prefix ≡ true
        → y.is_map node ≡ true
        → In (k, child) (y.entries node)
        → Member key n (join prefix k) child
        → Member key n prefix node

  -- A member of one of the entries.
  abbrev Below : List ℕ → y.Node → List ℕ → List (List ℕ × y.Node) → Type 0
  Below key n prefix es =
      (k : List ℕ) × (child : y.Node) × In (k, child) es × Member key n (join prefix k) child

  abbrev Lists : (List ℕ → y.Node → Type 0) → List (List ℕ × y.Node) → Type 0
  Lists P ms = (key : List ℕ) (n : y.Node) → In (key, n) ms ↔ P key n

  entries_iff :
      (f : List ℕ → y.Node → Option (List (List ℕ × y.Node))) (prefix : List ℕ)
      (es : List (List ℕ × y.Node))
      → All
          (λ e.
            (p : List ℕ)
            → (ms : List (List ℕ × y.Node)) × (f p e.1 ≡ some ms)
              × Lists (λ key n. Member key n p e.1) ms)
          es
      → (rest : List (List ℕ × y.Node)) × (list_entries y f prefix es ≡ some rest)
        × Lists (λ key n. Below key n prefix es) rest
  unfolding list_entries
  entries_iff f prefix [] h =
      ([], refl, λ key n. ((λ i. elim i [ ]), (λ (k, child, i, m). elim i [ ])))
  entries_iff f prefix (e ∷ es) h =
      let (ms, p, l) = h.0 (join prefix e.0) in
      let (rest, q, r) = entries_iff f prefix es h.1 in
      (
        ms ++ rest,
        rw (list_entries, p, q) refl,
        λ key n. (
          (λ i. elim (In-append_cases ms rest i) [
            | inl i ↦ (e.0, e.1, here es, (l key n).0 i)
            | inr i ↦ let (k, child, j, m) = (r key n).0 i in (k, child, there e es j, m)
          ]),
          (λ (k, child, i, m). elim (In-cons_cases es i) [
            | inl same ↦
                In-append_left ms rest
                  ((l key n).1 (subst (λ t. Member key n (join prefix t.0) t.1) same m))
            | inr j ↦ In-append_right ms rest ((r key n).1 (k, child, j, m))
          ]),
        ),
      )

  abbrev Same : List ℕ → y.Node → List ℕ → y.Node → Type 0
  Same key n prefix node = ◌≡◌ {A = List ℕ × y.Node} (key, n) (prefix, node)

  itself_or_Below :
      (prefix key : List ℕ) (node n : y.Node)
      → Member key n prefix node
      → Same key n prefix node ⊎ (y.is_map node ≡ true) × Below key n prefix (y.entries node)
  itself_or_Below _ key _ n (itself v) = inl refl
  itself_or_Below _ key _ n (below prefix k node child v m i b) = inr (m, (k, child, i, b))

  Same-Member :
      (prefix key : List ℕ) (node n : y.Node)
      → is_name prefix ≡ true
      → Same key n prefix node
      → Member key n prefix node
  Same-Member prefix key node n v same =
      subst (λ t. Member t.0 t.1 prefix node) (sym same) (itself v)

  is_named :
      (prefix key : List ℕ) (node n : y.Node) → Member key n prefix node → is_name prefix ≡ true
  is_named _ key _ n (itself v) = v
  is_named _ key _ n (below prefix k node child v m i b) = v

  -- The members of a map with a valid name.
  map_iff :
      (prefix key : List ℕ) (node n : y.Node) (rest : List (List ℕ × y.Node))
      → is_name prefix ≡ true
      → y.is_map node ≡ true
      → In (key, n) rest ↔ Below key n prefix (y.entries node)
      → In (key, n) ((prefix, node) ∷ rest) ↔ Member key n prefix node
  map_iff prefix key node n rest v b r = (
    (λ i. elim (In-cons_cases rest i) [
      | inl same ↦ Same-Member prefix key node n v same
      | inr j ↦ let (k, child, i', m) = r.0 j in below prefix k node child v b i' m
    ]),
    (λ m. elim (itself_or_Below prefix key node n m) [
      | inl same ↦ subst (λ t. In t ((prefix, node) ∷ rest)) (sym same) (here rest)
      | inr (b', j) ↦ there (prefix, node) rest (r.1 j)
    ]),
  )

  other_iff :
      (prefix key : List ℕ) (node n : y.Node)
      → is_name prefix ≡ true
      → y.is_map node ≡ false
      → In {A = List ℕ × y.Node} (key, n) ((prefix, node) ∷ []) ↔ Member key n prefix node
  other_iff prefix key node n v b = (
    (λ i. elim (In-cons_cases [] i) [
      | inl same ↦ Same-Member prefix key node n v same
      | inr j ↦ elim j [ ]
    ]),
    (λ m. elim (itself_or_Below prefix key node n m) [
      | inl same ↦ subst (λ t. In t ((prefix, node) ∷ [])) (sym same) (here [])
      | inr (b', j) ↦ cc
    ]),
  )

  abbrev Ends : ℕ → List ℕ → y.Node → Type 0
  Ends fuel p n =
      (ms : List (List ℕ × y.Node)) × (list_all_member y fuel p n ≡ some ms)
      × Lists (λ key m. Member key m p n) ms

  each_entry :
      (finite : Finite y) (fuel : ℕ) (node : y.Node)
      → finite.height node < suc fuel
      → ((p : List ℕ) (n : y.Node) → finite.height n < fuel → Ends fuel p n)
      → All (λ e. (p : List ℕ) → Ends fuel p e.1) (y.entries node)
  each_entry finite fuel node h ih =
      All-weaken (λ e. finite.height e.1 < finite.height node) (λ e. (p : List ℕ) → Ends fuel p e.1)
        (λ e low p. ih p e.1 (omega arith)) (y.entries node) (finite.lower node)

  pub list_all_member_iff :
      (finite : Finite y) (fuel : ℕ) (prefix : List ℕ) (node : y.Node)
      → finite.height node < fuel
      → (ms : List (List ℕ × y.Node)) × (list_all_member y fuel prefix node ≡ some ms)
        × ((key : List ℕ) (n : y.Node) → In (key, n) ms ↔ Member key n prefix node)
  unfolding list_all_member
  list_all_member_iff finite zero prefix node h = absurd (omega arith)
  list_all_member_iff finite (suc fuel) prefix node h =
      let each = each_entry finite fuel node h (λ p n l. list_all_member_iff finite fuel p n l) in
      let (rest, q, r) = entries_iff (list_all_member y fuel) prefix (y.entries node) each in
      elim (Bool-cases (is_name prefix)) [
        | inr e ↦ (
          [],
          rw e refl,
          λ key n. ((λ i. elim i [ ]), (λ m. absurd_bool (sym e ∙ is_named prefix key node n m))),
        )
        | inl e ↦ elim (Bool-cases (y.is_map node)) [
          | inl b ↦ (
            (prefix, node) ∷ rest,
            rw (e, b, q) refl,
            λ key n. map_iff prefix key node n rest e b (r key n),
          )
          | inr b ↦ ((prefix, node) ∷ [], rw (e, b) refl, λ key n. other_iff prefix key node n e b)
        ]
      ]
