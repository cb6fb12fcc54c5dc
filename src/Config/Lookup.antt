-- ===== src/Config/Lookup.antt =====
-- `Config::Lookup` finds what it has put into the table (config/config.h).
use sylar_net_server_framewo.Common.{
  none, if◌then◌else◌, ℕ, ◌≡◌, refl, ap, ◌∙◌, ◌⊎◌, inl, inr, true, false, some, List, ◌∷◌, arith,
  ◌==◌, Bool-cases, Option-cases,
}
use sylar_net_server_framewo.Addr.Lookup.{same_text}
use sylar_net_server_framewo.Config.Defs.{
  Found, ConfigVar, is_name, config_var, lookup_base, found, other_type, invalid_argument,
  lookup_or_add, lookup,
}
use sylar_net_server_framewo.Config.Loading.{same_text_self}

module _ {V : Type 0} where
  lookup_first :
      (name : List ℕ) (kind : ℕ) (v : ConfigVar V) (datas : List (List ℕ × ConfigVar V))
      → v.kind ≡ kind
      → lookup name kind ((name, v) ∷ datas) ≡ some v
  unfolding lookup lookup_base
  lookup_first name kind v datas e =
      let k : (v.kind == kind) ≡ true = ground arith in
      let q : lookup_base name ((name, v) ∷ datas) ≡ some v =
        rw (lookup_base, same_text_self name) refl in
      rw (lookup, q, k) refl

  -- The answer of `Lookup` with a default value, in every case.
  abbrev pub Answers : List ℕ → ℕ → V → List ℕ → List (List ℕ × ConfigVar V) → Found V → Type 0
  Answers name kind v desc datas answer =
      ((var : ConfigVar V)
        → lookup_base name datas ≡ some var
        → answer ≡ (if var.kind == kind then found var else other_type))
      × (lookup_base name datas ≡ none
          → is_name name ≡ true
          → answer ≡ found (config_var name kind v desc))
      × (lookup_base name datas ≡ none → is_name name ≡ false → answer ≡ invalid_argument)

  lookup_or_add-Answers :
      (name : List ℕ) (kind : ℕ) (v : V) (desc : List ℕ) (datas : List (List ℕ × ConfigVar V))
      → Answers name kind v desc datas (lookup_or_add name kind v desc datas).0
  unfolding lookup_or_add
  lookup_or_add-Answers name kind v desc datas = (
    (λ var e. rw (lookup_or_add, e) refl),
    (λ e n. rw (lookup_or_add, e, n) refl),
    (λ e n. rw (lookup_or_add, e, n) refl),
  )

  kept_or_added :
      (name : List ℕ) (kind : ℕ) (v : V) (desc : List ℕ) (datas : List (List ℕ × ConfigVar V))
      → ((var : ConfigVar V)
          → (lookup_or_add name kind v desc datas).0 ≡ found var
          → lookup name kind (lookup_or_add name kind v desc datas).1 ≡ some var)
        × ((lookup_or_add name kind v desc datas).0 ≡ other_type
              ⊎ (lookup_or_add name kind v desc datas).0 ≡ invalid_argument
            → (lookup_or_add name kind v desc datas).1 ≡ datas)
        × ((other : List ℕ)
            → same_text name other ≡ false
            → lookup_base other (lookup_or_add name kind v desc datas).1 ≡ lookup_base other datas)
  unfolding lookup_or_add config_var lookup lookup_base
  kept_or_added name kind v desc datas = elim (Option-cases (lookup_base name datas)) [
    | inr (old, e) ↦ elim (Bool-cases (old.kind == kind)) [
      | inl k ↦
          rw (lookup_or_add, e, k)
            (
              (λ var f. let q : old ≡ var = cc in rw (lookup, e, k) (ap some q)),
              (λ f. refl),
              (λ other h. refl),
            )
      | inr k ↦ rw (lookup_or_add, e, k) ((λ var f. cc), (λ f. refl), (λ other h. refl))
    ]
    | inl e ↦ elim (Bool-cases (is_name name)) [
      | inr s ↦ rw (lookup_or_add, e, s) ((λ var f. cc), (λ f. refl), (λ other h. refl))
      | inl s ↦
          rw (lookup_or_add, e, s)
            (
              (λ var f.
                  let q : config_var name kind v desc ≡ var = cc in
                  lookup_first name kind (config_var name kind v desc) datas refl ∙ ap some q),
              (λ f. elim f [ inl g ↦ cc | inr g ↦ cc ]),
              (λ other h. rw (lookup_base, h) refl),
            )
    ]
  ]

  -- `Lookup` with a default value finds a variable that is there if its type is right, and else answers
  -- null; a name that is not there is added if its characters are valid, and else refused by an
  -- exception. What it finds or adds is found again by `Lookup` with the same type; a null answer and a
  -- refusal leave the table as it is, and the other names are untouched in every case.
  pub lookup-lookup_or_add :
      (name : List ℕ) (kind : ℕ) (v : V) (desc : List ℕ) (datas : List (List ℕ × ConfigVar V))
      → Answers name kind v desc datas (lookup_or_add name kind v desc datas).0
        × ((var : ConfigVar V)
            → (lookup_or_add name kind v desc datas).0 ≡ found var
            → lookup name kind (lookup_or_add name kind v desc datas).1 ≡ some var)
        × ((lookup_or_add name kind v desc datas).0 ≡ other_type
              ⊎ (lookup_or_add name kind v desc datas).0 ≡ invalid_argument
            → (lookup_or_add name kind v desc datas).1 ≡ datas)
        × ((other : List ℕ)
            → same_text name other ≡ false
            → lookup_base other (lookup_or_add name kind v desc datas).1 ≡ lookup_base other datas)
  lookup-lookup_or_add name kind v desc datas =
      let (again, same, others) = kept_or_added name kind v desc datas in
      (lookup_or_add-Answers name kind v desc datas, again, same, others)
