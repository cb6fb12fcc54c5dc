-- ===== src/Config/Registry.antt =====
-- The table of the variables (config/config.h and config.cc).
use sylar_net_server_framewo.Common.{
  absurd_bool, ℕ, ◌≡◌, refl, sym, ap, ◌∙◌, inl, inr, Bool, true, Option, some, List, [], ◌∷◌, map,
  arith, All, Bool-cases, Option-cases,
}
use sylar_net_server_framewo.Addr.Lookup.{same_text}
use sylar_net_server_framewo.Addr.Order.{same_text-eq}
use sylar_net_server_framewo.Config.Yaml.{Yaml}
use sylar_net_server_framewo.Config.Defs.{
  ConfigVar, to_lower, in_name, is_name, config_var, set_value, from_string, lookup_base, put_var,
  lookup_or_add, load_member, load_members, add_listener, del_listener, clear_listener,
}

lower_in_name : (c : ℕ) → in_name c ≡ true → to_lower c ≡ c
unfolding in_name to_lower
lower_in_name c h = ground arith

lower_is_name : (name : List ℕ) → is_name name ≡ true → map to_lower name ≡ name
unfolding is_name
lower_is_name [] h = refl
lower_is_name (c ∷ cs) h = elim (Bool-cases (in_name c)) [
  | inl e ↦
      let head = lower_in_name c e in
      let tail = lower_is_name cs (rw e at h) in λ i. head i ∷ tail i
  | inr e ↦ absurd_bool (rw e at h)
]

module _ {V : Type 0} where
  -- The name of a variable is that under which it is in the table, and has only the characters of names.
  abbrev pub Named : List (List ℕ × ConfigVar V) → Type 0
  Named datas = All (λ d. (is_name d.0 ≡ true) × (d.1.name ≡ d.0)) datas

  put_var-Named :
      (name : List ℕ) (var var' : ConfigVar V) (datas : List (List ℕ × ConfigVar V))
      → Named datas
      → lookup_base name datas ≡ some var
      → var'.name ≡ var.name
      → Named (put_var name var' datas)
  unfolding put_var lookup_base
  put_var-Named name var var' [] n h e = tt
  put_var-Named name var var' (d ∷ ds) n h e = elim (Bool-cases (same_text d.0 name)) [
    | inl s ↦
        let q : some d.1 ≡ some var = rw (lookup_base, s) at h in
        let q' : d.1 ≡ var = cc in
        rw (put_var, s) ((n.0.0, e ∙ ap (λ v. v.name) (sym q') ∙ n.0.1), n.1)
    | inr s ↦
        let q : lookup_base name ds ≡ some var = rw (lookup_base, s) at h in
        rw (put_var, s) (n.0, put_var-Named name var var' ds n.1 q e)
  ]

  lookup_base-Named :
      (name : List ℕ) (var : ConfigVar V) (datas : List (List ℕ × ConfigVar V))
      → Named datas
      → lookup_base name datas ≡ some var
      → (is_name name ≡ true) × (var.name ≡ name)
  unfolding lookup_base
  lookup_base-Named name var [] n h = cc
  lookup_base-Named name var (d ∷ ds) n h = elim (Bool-cases (same_text d.0 name)) [
    | inl s ↦
        let q : some d.1 ≡ some var = rw (lookup_base, s) at h in
        let q' : d.1 ≡ var = cc in
        let k = same_text-eq d.0 name s in
        (ap is_name (sym k) ∙ n.0.0, ap (λ v. v.name) (sym q') ∙ n.0.1 ∙ k)
    | inr s ↦ let q = rw (lookup_base, s) at h in lookup_base-Named name var ds n.1 q
  ]

  lookup_or_add-Named :
      (name : List ℕ) (kind : ℕ) (v : V) (desc : List ℕ) (datas : List (List ℕ × ConfigVar V))
      → Named datas
      → Named (lookup_or_add name kind v desc datas).1
  unfolding lookup_or_add config_var
  lookup_or_add-Named name kind v desc datas n = elim (Option-cases (lookup_base name datas)) [
    | inr (var, e) ↦ rw (lookup_or_add, e) n
    | inl e ↦ elim (Bool-cases (is_name name)) [
      | inl s ↦ rw (lookup_or_add, e, s) ((s, lower_is_name name s), n)
      | inr s ↦ rw (lookup_or_add, e, s) n
    ]
  ]

  module _ (y : Yaml) (equal : V → V → Bool) (cast : ℕ → List ℕ → Option V) where
    set_value-name : (v : V) (var : ConfigVar V) → (set_value equal v var).0.name ≡ var.name
    unfolding set_value
    set_value-name v var = elim (Bool-cases (equal v var.value)) [
      | inl s ↦ rw (set_value, s) refl
      | inr s ↦ rw (set_value, s) refl
    ]

    from_string-name :
        (text : List ℕ) (var : ConfigVar V) → (from_string equal cast text var).0.name ≡ var.name
    unfolding from_string
    from_string-name text var = elim (Option-cases (cast var.kind text)) [
      | inl e ↦ rw (from_string, e) refl
      | inr (v, e) ↦ rw (from_string, e) (set_value-name v var)
    ]

    load_member-Named :
        (m : List ℕ × y.Node) (datas : List (List ℕ × ConfigVar V))
        → Named datas
        → Named (load_member y equal cast m datas).0
    unfolding load_member
    load_member-Named ([], n) datas h = h
    load_member-Named (c ∷ cs, n) datas h =
        elim (Option-cases (lookup_base (map to_lower (c ∷ cs)) datas)) [
          | inl e ↦ rw (load_member, e) h
          | inr (var, e) ↦
              rw (load_member, e)
                (put_var-Named (map to_lower (c ∷ cs)) var _ datas h e (from_string-name _ var))
        ]

    load_members-Named :
        (ms : List (List ℕ × y.Node)) (datas : List (List ℕ × ConfigVar V))
        → Named datas
        → Named (load_members y equal cast ms datas).0
    unfolding load_members
    load_members-Named [] datas h = h
    load_members-Named (m ∷ ms) datas h =
        load_members-Named ms (load_member y equal cast m datas).0 (load_member-Named m datas h)

    -- The tables that a program reaches by looking up variables, loading documents, and by setting
    -- values and listeners of variables.
    pub data Reached : List (List ℕ × ConfigVar V) → Type 0 where
      nothing : Reached []
      looked_up :
          (name : List ℕ) (kind : ℕ) (v : V) (desc : List ℕ) (datas : List (List ℕ × ConfigVar V))
          → Reached datas
          → Reached (lookup_or_add name kind v desc datas).1
      loaded :
          (ms : List (List ℕ × y.Node)) (datas : List (List ℕ × ConfigVar V))
          → Reached datas
          → Reached (load_members y equal cast ms datas).0
      parsed :
          (name text : List ℕ) (var : ConfigVar V) (datas : List (List ℕ × ConfigVar V))
          → Reached datas
          → lookup_base name datas ≡ some var
          → Reached (put_var name (from_string equal cast text var).0 datas)
      assigned :
          (name : List ℕ) (v : V) (var : ConfigVar V) (datas : List (List ℕ × ConfigVar V))
          → Reached datas
          → lookup_base name datas ≡ some var
          → Reached (put_var name (set_value equal v var).0 datas)
      listened :
          (name : List ℕ) (cb fun_id : ℕ) (var : ConfigVar V) (datas : List (List ℕ × ConfigVar V))
          → Reached datas
          → lookup_base name datas ≡ some var
          → Reached (put_var name (add_listener cb fun_id var).1 datas)
      unlistened :
          (name : List ℕ) (key : ℕ) (var : ConfigVar V) (datas : List (List ℕ × ConfigVar V))
          → Reached datas
          → lookup_base name datas ≡ some var
          → Reached (put_var name (del_listener key var) datas)
      cleared :
          (name : List ℕ) (var : ConfigVar V) (datas : List (List ℕ × ConfigVar V))
          → Reached datas
          → lookup_base name datas ≡ some var
          → Reached (put_var name (clear_listener var) datas)

    every-Named : (datas : List (List ℕ × ConfigVar V)) → Reached datas → Named datas
    unfolding add_listener del_listener clear_listener
    every-Named _ nothing = tt
    every-Named _ (assigned name v var datas r e) =
        put_var-Named name var _ datas (every-Named datas r) e (set_value-name v var)
    every-Named _ (cleared name var datas r e) =
        put_var-Named name var _ datas (every-Named datas r) e refl
    every-Named _ (looked_up name kind v desc datas r) =
        lookup_or_add-Named name kind v desc datas (every-Named datas r)
    every-Named _ (loaded ms datas r) = load_members-Named ms datas (every-Named datas r)
    every-Named _ (parsed name text var datas r e) =
        put_var-Named name var _ datas (every-Named datas r) e (from_string-name text var)
    every-Named _ (listened name cb fun_id var datas r e) =
        put_var-Named name var _ datas (every-Named datas r) e refl
    every-Named _ (unlistened name key var datas r e) =
        put_var-Named name var _ datas (every-Named datas r) e refl

    -- Whatever a program looks up, loads and sets, a variable that is found has the name under which it
    -- is found, and this name has no capital letter or other character that is not allowed.
    pub Reached-Named :
        (datas : List (List ℕ × ConfigVar V)) (name : List ℕ) (var : ConfigVar V)
        → Reached datas
        → lookup_base name datas ≡ some var
        → (is_name name ≡ true) × (var.name ≡ name)
    Reached-Named datas name var r e = lookup_base-Named name var datas (every-Named datas r) e
