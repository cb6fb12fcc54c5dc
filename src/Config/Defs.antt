-- ===== src/Config/Defs.antt =====
-- `ConfigVar` and `Config` (config/config.h and config.cc). A value of any type is in `V`, and `kind`
-- is the type of the variable. Listeners are numbers, and a call of one is recorded.
use sylar_net_server_framewo.Common.{
  ℕ, zero, suc, ◌+◌, ◌%◌, ◌^◌, Bool, true, not, ◌&&◌, ◌||◌, Option, none, some, List, [], ◌∷◌, ◌++◌,
  map, leb, ltb, ◌==◌, if◌then◌else◌,
}
use sylar_net_server_framewo.Addr.Lookup.{same_text}
use sylar_net_server_framewo.Config.Yaml.{Yaml}

pub record ConfigVar (V : Type 0) : Type 0 where
  pub name : List ℕ
  pub description : List ℕ
  pub kind : ℕ
  pub value : V
  pub cbs : List (ℕ × ℕ)

-- A call of a listener, with the old and the new value
pub record Call (V : Type 0) : Type 0 where
  pub listener : ℕ
  pub old_value : V
  pub new_value : V

-- `tolower`
unfoldable pub to_lower : ℕ → ℕ
to_lower c = if leb 65 c && leb c 90 then c + 32 else c

-- The characters of "abcdefghikjlmnopqrstuvwxyz._012345678"
unfoldable pub in_name : ℕ → Bool
in_name c = (leb 97 c && leb c 122) || (c == 46) || (c == 95) || (leb 48 c && leb c 56)

-- `find_first_not_of` is `npos`
unfoldable pub is_name : List ℕ → Bool
is_name [] = true
is_name (c ∷ cs) = in_name c && is_name cs

-- `m_cbs[key] = cb`, in the order of the keys
unfoldable pub put_listener : ℕ → ℕ → List (ℕ × ℕ) → List (ℕ × ℕ)
put_listener key cb [] = (key, cb) ∷ []
put_listener key cb (c ∷ cs) =
    let rest = put_listener key cb cs in
    if key == c.0 then (key, cb) ∷ cs else if ltb key c.0 then (key, cb) ∷ c ∷ cs else c ∷ rest

unfoldable pub erase_listener : ℕ → List (ℕ × ℕ) → List (ℕ × ℕ)
erase_listener key [] = []
erase_listener key (c ∷ cs) =
    let rest = erase_listener key cs in if c.0 == key then rest else c ∷ rest

unfoldable pub find_listener : ℕ → List (ℕ × ℕ) → Option ℕ
find_listener key [] = none
find_listener key (c ∷ cs) =
    let rest = find_listener key cs in if c.0 == key then some c.1 else rest

module _ {V : Type 0} where
  -- `ConfigVar::ConfigVar` and `ConfigVarBase::ConfigVarBase`
  unfoldable pub config_var : List ℕ → ℕ → V → List ℕ → ConfigVar V
  config_var name kind default_value description = record {
    name = map to_lower name;
    description = description;
    kind = kind;
    value = default_value;
    cbs = [];
  }

  -- The callbacks of `setValue`
  unfoldable pub notify : V → V → List (ℕ × ℕ) → List (Call V)
  notify old new [] = []
  notify old new (c ∷ cs) =
      record { listener = c.1; old_value = old; new_value = new } ∷ notify old new cs

  -- `ConfigVar::setValue`, with the `==` of the values
  unfoldable pub set_value : (V → V → Bool) → V → ConfigVar V → ConfigVar V × List (Call V)
  set_value equal v var =
      if equal v var.value
      then (var, [])
      else (record var { value = v }, notify var.value v var.cbs)

  -- `ConfigVar::fromString`, with the cast of a type: one that throws changes nothing.
  unfoldable pub from_string :
      (V → V → Bool) → (ℕ → List ℕ → Option V) → List ℕ → ConfigVar V → ConfigVar V × List (Call V)
  from_string equal cast val var = elim (cast var.kind val) [
    | none ↦ (var, [])
    | some v ↦ set_value equal v var
  ]

  -- `addListener`, with `s_fun_id`, which becomes what it returns; `delListener`, `getListener` and `clearListener`
  unfoldable pub add_listener : ℕ → ℕ → ConfigVar V → ℕ × ConfigVar V
  add_listener cb fun_id var =
      let key = (fun_id + 1) % 2 ^ 64 in (key, record var { cbs = put_listener key cb var.cbs })

  unfoldable pub del_listener : ℕ → ConfigVar V → ConfigVar V
  del_listener key var = record var { cbs = erase_listener key var.cbs }

  unfoldable pub get_listener : ℕ → ConfigVar V → Option ℕ
  get_listener key var = find_listener key var.cbs

  unfoldable pub clear_listener : ConfigVar V → ConfigVar V
  clear_listener var = record var { cbs = [] }

  -- `GetDatas().find`, `LookupBase`
  unfoldable pub lookup_base : List ℕ → List (List ℕ × ConfigVar V) → Option (ConfigVar V)
  lookup_base name [] = none
  lookup_base name (d ∷ ds) =
      let rest = lookup_base name ds in if same_text d.0 name then some d.1 else rest

  -- What the variable at `name` becomes through its pointer
  unfoldable pub put_var :
      List ℕ → ConfigVar V → List (List ℕ × ConfigVar V) → List (List ℕ × ConfigVar V)
  put_var name var [] = []
  put_var name var (d ∷ ds) =
      let rest = put_var name var ds in if same_text d.0 name then (d.0, var) ∷ ds else d ∷ rest

-- What `Lookup` with a default value does.
pub data Found (V : Type 0) : Type 0 where
  found : ConfigVar V → Found V
  other_type : Found V
  invalid_argument : Found V

module _ {V : Type 0} where
  -- `Config::Lookup(name, default_value, description)`
  unfoldable pub lookup_or_add :
      List ℕ → ℕ → V → List ℕ → List (List ℕ × ConfigVar V) → Found V × List (List ℕ × ConfigVar V)
  lookup_or_add name kind default_value description datas = elim (lookup_base name datas) [
    | some var ↦ (if var.kind == kind then found var else other_type, datas)
    | none ↦
        let v = config_var name kind default_value description in
        if not (is_name name) then (invalid_argument, datas) else (found v, (name, v) ∷ datas)
  ]

  -- `Config::Lookup(name)`
  unfoldable pub lookup : List ℕ → ℕ → List (List ℕ × ConfigVar V) → Option (ConfigVar V)
  lookup name kind datas = elim (lookup_base name datas) [
    | none ↦ none
    | some var ↦ if var.kind == kind then some var else none
  ]

-- `prefix.empty() ? key : prefix + "." + key`
abbrev pub join : List ℕ → List ℕ → List ℕ
join [] key = key
join (c ∷ cs) key = (c ∷ cs) ++ (46 ∷ key)

module _ (y : Yaml) where
  -- The loop of `ListAllMember`, with what it does for an entry
  unfoldable pub list_entries :
      (List ℕ → y.Node → Option (List (List ℕ × y.Node)))
      → List ℕ
      → List (List ℕ × y.Node)
      → Option (List (List ℕ × y.Node))
  list_entries f prefix [] = some []
  list_entries f prefix (e ∷ es) = elim (f (join prefix e.0) e.1) [
    | none ↦ none
    | some ms ↦ elim (list_entries f prefix es) [ none ↦ none | some rest ↦ some (ms ++ rest) ]
  ]

  -- `ListAllMember`, with fuel for the depth of the document
  unfoldable pub list_all_member : ℕ → List ℕ → y.Node → Option (List (List ℕ × y.Node))
  list_all_member zero prefix node = none
  list_all_member (suc fuel) prefix node =
      let below = list_entries (list_all_member fuel) prefix (y.entries node) in
      if not (is_name prefix)
      then some []
      else if y.is_map node
      then elim below [ none ↦ none | some rest ↦ some ((prefix, node) ∷ rest) ]
      else some ((prefix, node) ∷ [])

  -- The text of a member, for `fromString`
  unfoldable pub text_of : y.Node → List ℕ
  text_of node = if y.is_scalar node then y.scalar node else y.print node

  module _ {V : Type 0} (equal : V → V → Bool) (cast : ℕ → List ℕ → Option V) where
    -- One turn of the loop of `LoadFromYaml`
    unfoldable pub load_member :
        List ℕ × y.Node → List (List ℕ × ConfigVar V) → List (List ℕ × ConfigVar V) × List (Call V)
    load_member m datas = elim m.0 [
      | [] ↦ (datas, [])
      | c ∷ cs ↦ elim (lookup_base (map to_lower (c ∷ cs)) datas) [
        | none ↦ (datas, [])
        | some var ↦
            let r = from_string equal cast (text_of m.1) var in
            (put_var (map to_lower (c ∷ cs)) r.0 datas, r.1)
      ]
    ]

    unfoldable pub load_members :
        List (List ℕ × y.Node)
        → List (List ℕ × ConfigVar V)
        → List (List ℕ × ConfigVar V) × List (Call V)
    load_members [] datas = (datas, [])
    load_members (m ∷ ms) datas =
        let r = load_member m datas in let rest = load_members ms r.0 in (rest.0, r.1 ++ rest.1)

    -- `Config::LoadFromYaml`
    unfoldable pub load_from_yaml :
        ℕ
        → y.Node
        → List (List ℕ × ConfigVar V)
        → Option (List (List ℕ × ConfigVar V) × List (Call V))
    load_from_yaml fuel root datas = elim (list_all_member fuel [] root) [
      | none ↦ none
      | some ms ↦ some (load_members ms datas)
    ]
