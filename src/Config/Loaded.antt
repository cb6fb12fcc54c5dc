-- ===== src/Config/Loaded.antt =====
-- Every variable after `LoadFromYaml` (config/config.cc and config.h).
use sylar_net_server_framewo.Common.{
  ℕ, ◌<◌, ◌≡◌, refl, sym, ap, ◌∙◌, subst, inl, inr, Bool, true, false, Option, none, some, List, [],
  ◌∷◌, map, if◌then◌else◌, Bool-cases, Option-cases,
}
use sylar_net_server_framewo.Addr.Lookup.{same_text}
use sylar_net_server_framewo.Addr.Order.{same_text-eq}
use sylar_net_server_framewo.Config.Yaml.{Yaml, Finite}
use sylar_net_server_framewo.Config.Defs.{
  ConfigVar, Call, to_lower, from_string, lookup_base, put_var, text_of, load_member, load_members,
  load_from_yaml, list_all_member,
}
use sylar_net_server_framewo.Config.Members.{list_all_member_iff}
use sylar_net_server_framewo.Config.Loading.{
  Reflects, find-put_same, find-put_other, or_else, last_given, Holds, from_string-Holds,
}

-- A member whose name in lower case is that of the variable; the root has no name.
abbrev pub is_for : List ℕ → List ℕ → Bool
is_for name [] = false
is_for name (c ∷ cs) = same_text (map to_lower (c ∷ cs)) name

module _ (y : Yaml) where
  -- The texts that the members of a variable have, in their order.
  pub texts : List ℕ → List (List ℕ × y.Node) → List (List ℕ)
  texts name [] = []
  texts name (m ∷ ms) = if is_for name m.0 then text_of y m.1 ∷ texts name ms else texts name ms

  module _ {V : Type 0} (equal : V → V → Bool) (cast : ℕ → List ℕ → Option V) where
    -- The variable at a name holds a value.
    abbrev pub HoldsAt : List ℕ → ConfigVar V → V → List (List ℕ × ConfigVar V) → Type 0
    HoldsAt name var value datas =
        (var' : ConfigVar V) × (lookup_base name datas ≡ some var') × Holds var value var'

    absent_member :
        (m : List ℕ × y.Node) (name : List ℕ) (datas : List (List ℕ × ConfigVar V))
        → lookup_base name datas ≡ none
        → lookup_base name (load_member y equal cast m datas).0 ≡ none
    unfolding load_member
    absent_member ([], n) name datas h = h
    absent_member (c ∷ cs, n) name datas h =
        let key : List ℕ = map to_lower (c ∷ cs) in
        elim (Option-cases (lookup_base key datas)) [
          | inl e ↦ rw (load_member, e) h
          | inr (v, e) ↦ elim (Bool-cases (same_text key name)) [
            | inl s ↦
                let q : some v ≡ none =
                  sym e ∙ ap (λ t. lookup_base t datas) (same_text-eq key name s) ∙ h in
                cc
            | inr s ↦ rw (load_member, e) (find-put_other key name _ datas s ∙ h)
          ]
        ]

    other_member :
        (m : List ℕ × y.Node) (name : List ℕ) (datas : List (List ℕ × ConfigVar V))
        → is_for name m.0 ≡ false
        → lookup_base name (load_member y equal cast m datas).0 ≡ lookup_base name datas
    unfolding load_member
    other_member ([], n) name datas h = refl
    other_member (c ∷ cs, n) name datas h =
        let key : List ℕ = map to_lower (c ∷ cs) in
        elim (Option-cases (lookup_base key datas)) [
          | inl e ↦ rw (load_member, e) refl
          | inr (v, e) ↦ rw (load_member, e) (find-put_other key name _ datas h)
        ]

    own_member :
        (m : List ℕ × y.Node) (name : List ℕ) (var : ConfigVar V)
        (datas : List (List ℕ × ConfigVar V))
        → Reflects equal
        → is_for name m.0 ≡ true
        → lookup_base name datas ≡ some var
        → HoldsAt name var
            (or_else (cast var.kind (text_of y m.1)) var.value)
            (load_member y equal cast m datas).0
    unfolding load_member
    own_member ([], n) name var datas r s h = cc
    own_member (c ∷ cs, n) name var datas r s h =
        let key : List ℕ = map to_lower (c ∷ cs) in
        let q : key ≡ name = same_text-eq key name s in
        let found : lookup_base key datas ≡ some var = rw q h in
        (
          (from_string equal cast (text_of y n) var).0,
          rw (load_member, found)
              (subst
                (λ t.
                  lookup_base t (put_var key (from_string equal cast (text_of y n) var).0 datas)
                  ≡ some (from_string equal cast (text_of y n) var).0)
                q (find-put_same key var (from_string equal cast (text_of y n) var).0 datas found)),
          from_string-Holds equal cast (text_of y n) var r,
        )

    absent_members :
        (ms : List (List ℕ × y.Node)) (name : List ℕ) (datas : List (List ℕ × ConfigVar V))
        → lookup_base name datas ≡ none
        → lookup_base name (load_members y equal cast ms datas).0 ≡ none
    unfolding load_members
    absent_members [] name datas h = h
    absent_members (m ∷ ms) name datas h =
        absent_members ms name (load_member y equal cast m datas).0 (absent_member m name datas h)

    Holds-trans :
        (var var₁ var₂ : ConfigVar V) (v : V) (ts : List (List ℕ))
        → Holds var v var₁
        → Holds var₁ (last_given (cast var₁.kind) ts var₁.value) var₂
        → Holds var (last_given (cast var.kind) ts v) var₂
    Holds-trans var var₁ var₂ v ts a b = record {
      same_name = b.same_name ∙ a.same_name;
      same_kind = b.same_kind ∙ a.same_kind;
      same_cbs = b.same_cbs ∙ a.same_cbs;
      holds = b.holds ∙ λ i. last_given (cast (a.same_kind i)) ts (a.holds i);
    }

    members-Holds :
        (ms : List (List ℕ × y.Node)) (name : List ℕ) (var : ConfigVar V)
        (datas : List (List ℕ × ConfigVar V))
        → Reflects equal
        → lookup_base name datas ≡ some var
        → HoldsAt name var
            (last_given (cast var.kind) (texts name ms) var.value)
            (load_members y equal cast ms datas).0
    unfolding load_members texts last_given
    members-Holds [] name var datas r h =
        (var, h, record { same_name = refl; same_kind = refl; same_cbs = refl; holds = refl })
    members-Holds (m ∷ ms) name var datas r h =
        let next = (load_member y equal cast m datas).0 in
        elim (Bool-cases (is_for name m.0)) [
          | inr e ↦ rw e (members-Holds ms name var next r (other_member m name datas e ∙ h))
          | inl e ↦
              let (var₁, found, a) = own_member m name var datas r e h in
              let (var₂, found₂, b) = members-Holds ms name var₁ next r found in
              rw e (
                var₂,
                found₂,
                Holds-trans var var₁ var₂ (or_else (cast var.kind (text_of y m.1)) var.value)
                    (texts name ms) a b,
              )
        ]

    -- With fuel for the height of the document `LoadFromYaml` ends. It adds no variable, and afterwards
    -- each variable has its type and its listeners as before, and the value of the last of its members
    -- in the document the text of which is cast, or the old value if there is none: members with
    -- another name and texts that are not cast leave no trace.
    pub load_from_yaml-Holds :
        (finite : Finite y) (fuel : ℕ) (root : y.Node) (datas : List (List ℕ × ConfigVar V))
        → Reflects equal
        → finite.height root < fuel
        → (ms : List (List ℕ × y.Node)) × (datas' : List (List ℕ × ConfigVar V)) × (calls : List
            (Call V))
          × (list_all_member y fuel [] root ≡ some ms)
          × (load_from_yaml y equal cast fuel root datas ≡ some (datas', calls))
          × ((name : List ℕ) → lookup_base name datas ≡ none → lookup_base name datas' ≡ none)
          × ((name : List ℕ) (var : ConfigVar V)
              → lookup_base name datas ≡ some var
              → HoldsAt name var (last_given (cast var.kind) (texts name ms) var.value) datas')
    unfolding load_from_yaml
    load_from_yaml-Holds finite fuel root datas r h =
        let (ms, e, i) = list_all_member_iff y finite fuel [] root h in
        let loaded = load_members y equal cast ms datas in
        (
          ms,
          loaded.0,
          loaded.1,
          e,
          rw (load_from_yaml, e) refl,
          (λ name absent. absent_members ms name datas absent),
          (λ name var found. members-Holds ms name var datas r found),
        )
