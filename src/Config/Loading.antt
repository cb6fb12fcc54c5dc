-- ===== src/Config/Loading.antt =====
-- What `LoadFromYaml` makes of the variables (config/config.cc and config.h).
use sylar_net_server_framewo.Common.{
  ℕ, ◌≡◌, refl, sym, ap, ◌∙◌, inl, inr, Bool, true, false, Option, none, some, List, [], ◌∷◌, arith,
  ◌==◌, Bool-cases, Option-cases,
}
use sylar_net_server_framewo.Addr.Lookup.{same_text}
use sylar_net_server_framewo.Addr.Order.{same_text-eq}
use sylar_net_server_framewo.Config.Defs.{ConfigVar, set_value, from_string, lookup_base, put_var}

pub same_text_self : (a : List ℕ) → same_text a a ≡ true
same_text_self [] = refl
same_text_self (a ∷ as') = let e : (a == a) ≡ true = ground arith in rw e (same_text_self as')

-- The test says `true` for equal values only.
pub record Reflects {V : Type 0} (equal : V → V → Bool) : Type 0 where
  pub sound : (a b : V) → equal a b ≡ true → a ≡ b

module _ {V : Type 0} where
  pub find-put_same :
      (name : List ℕ) (v v' : ConfigVar V) (ds : List (List ℕ × ConfigVar V))
      → lookup_base name ds ≡ some v
      → lookup_base name (put_var name v' ds) ≡ some v'
  unfolding lookup_base put_var
  find-put_same name v v' [] h = cc
  find-put_same name v v' (d ∷ ds) h = elim (Bool-cases (same_text d.0 name)) [
    | inl e ↦ rw (put_var, lookup_base, e) (rw (lookup_base, e) refl)
    | inr e ↦
        let h' : lookup_base name ds ≡ some v = rw (lookup_base, e) at h in
        rw (put_var, e) (rw (lookup_base, e) (find-put_same name v v' ds h'))
  ]

  pub find-put_other :
      (name other : List ℕ) (v' : ConfigVar V) (ds : List (List ℕ × ConfigVar V))
      → same_text name other ≡ false
      → lookup_base other (put_var name v' ds) ≡ lookup_base other ds
  unfolding lookup_base put_var
  find-put_other name other v' [] h = refl
  find-put_other name other v' (d ∷ ds) h = elim (Bool-cases (same_text d.0 name)) [
    | inl e ↦
        let q : same_text d.0 other ≡ false =
          ap (λ t. same_text t other) (same_text-eq d.0 name e) ∙ h in
        rw (put_var, e) (rw (lookup_base, q) refl)
    | inr e ↦
        rw (put_var, e)
          (elim (Bool-cases (same_text d.0 other)) [
            | inl q ↦ rw (lookup_base, q) refl
            | inr q ↦ rw (lookup_base, q) (find-put_other name other v' ds h)
          ])
  ]

  abbrev pub or_else : Option V → V → V
  or_else none d = d
  or_else (some v) d = v

  -- The last of the texts that is cast, or the value that is there.
  unfoldable pub last_given : (List ℕ → Option V) → List (List ℕ) → V → V
  last_given parse [] d = d
  last_given parse (t ∷ ts) d = last_given parse ts (or_else (parse t) d)

  -- A variable of the same type, with the same listeners, that has a value.
  pub record Holds (var : ConfigVar V) (value : V) (var' : ConfigVar V) : Type 0 where
    pub same_name : var'.name ≡ var.name
    pub same_kind : var'.kind ≡ var.kind
    pub same_cbs : var'.cbs ≡ var.cbs
    pub holds : var'.value ≡ value

  module _ (equal : V → V → Bool) (cast : ℕ → List ℕ → Option V) where
    set_value-Holds :
        (v : V) (var : ConfigVar V) → Reflects equal → Holds var v (set_value equal v var).0
    unfolding set_value
    set_value-Holds v var r = elim (Bool-cases (equal v var.value)) [
      | inl e ↦
          rw (set_value, e)
            (record {
              same_name = refl;
              same_kind = refl;
              same_cbs = refl;
              holds = sym (r.sound v var.value e);
            })
      | inr e ↦
          rw (set_value, e)
            (record { same_name = refl; same_kind = refl; same_cbs = refl; holds = refl })
    ]

    pub from_string-Holds :
        (text : List ℕ) (var : ConfigVar V)
        → Reflects equal
        → Holds var (or_else (cast var.kind text) var.value) (from_string equal cast text var).0
    unfolding from_string
    from_string-Holds text var r = elim (Option-cases (cast var.kind text)) [
      | inl e ↦
          rw (from_string, e)
            (record { same_name = refl; same_kind = refl; same_cbs = refl; holds = refl })
      | inr (v, e) ↦ rw (from_string, e) (set_value-Holds v var r)
    ]
