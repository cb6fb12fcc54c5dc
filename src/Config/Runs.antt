-- ===== src/Config/Runs.antt =====
-- Runs of the configuration.
use sylar_net_server_framewo.Common.{
  ℕ, zero, suc, ◌+◌, ◌≤◌, ◌<◌, ◌≡◌, refl, ap, ◌∙◌, ◌⊎◌, Bool, true, false, not, Option, none, some,
  List, [], ◌∷◌, ◌++◌, arith, ◌==◌, length, take, drop, All, length-append,
}
use sylar_net_server_framewo.Addr.Lookup.{same_text}
use sylar_net_server_framewo.Config.Yaml.{Yaml, PrintsBack, Finite}
use sylar_net_server_framewo.Config.Casts.{
  vector_to_string, vector_from_string, vector_from_string-vector_to_string,
}
use sylar_net_server_framewo.Config.Defs.{
  ConfigVar, Call, Found, found, other_type, invalid_argument, config_var, is_name, in_name,
  lookup_base, lookup_or_add, lookup, list_all_member, load_from_yaml,
}
use sylar_net_server_framewo.Config.Loading.{Reflects, last_given}
use sylar_net_server_framewo.Config.Loaded.{HoldsAt, texts, load_from_yaml-Holds}
use sylar_net_server_framewo.Config.Registry.{Reached, nothing, looked_up, Reached-Named}
use sylar_net_server_framewo.Config.Lookup.{Answers, lookup-lookup_or_add}

-- Documents that are scalars and maps with two entries.
data Tree : Type 0 where
  leaf : List ℕ → Tree
  branch : List ℕ → Tree → List ℕ → Tree → Tree

abbrev tree_entries : Tree → List (List ℕ × Tree)
tree_entries (leaf t) = []
tree_entries (branch k t k' t') = (k, t) ∷ (k', t') ∷ []

abbrev tree_text : Tree → List ℕ
tree_text (leaf t) = t
tree_text (branch k t k' t') = k

abbrev tree_is_map : Tree → Bool
tree_is_map (leaf t) = false
tree_is_map (branch k t k' t') = true

abbrev tree_height : Tree → ℕ
tree_height (leaf t) = 0
tree_height (branch k t k' t') = suc (tree_height t + tree_height t')

abbrev trees : Yaml
trees = record {
  Node = Tree;
  load = λ t. some (leaf t);
  print = tree_text;
  items = λ t. [];
  sequence = λ ts. leaf [];
  is_map = tree_is_map;
  entries = tree_entries;
  is_scalar = λ t. not (tree_is_map t);
  scalar = tree_text;
}

tree_lower : (t : Tree) → All (λ e. tree_height e.1 < tree_height t) (tree_entries t)
tree_lower (leaf t) = tt
tree_lower (branch k t k' t') = (omega arith, (omega arith, tt))

abbrev trees_finite : Finite trees
trees_finite = record { height = tree_height; lower = tree_lower }

-- "a: {b: 1, B: 2}" and "a.b: 3"
abbrev document : Tree
document =
    branch (97 ∷ []) (branch (98 ∷ []) (leaf (49 ∷ [])) (66 ∷ []) (leaf (50 ∷ [])))
      (97 ∷ 46 ∷ 98 ∷ []) (leaf (51 ∷ []))

abbrev first_number : ℕ → List ℕ → Option ℕ
first_number kind [] = none
first_number kind (c ∷ cs) = some c

abbrev port : ConfigVar ℕ
port = record { name = 97 ∷ 46 ∷ 98 ∷ []; description = []; kind = 0; value = 7; cbs = (1, 5) ∷ [] }

abbrev table : List (List ℕ × ConfigVar ℕ)
table = (97 ∷ 46 ∷ 98 ∷ [], port) ∷ []

same_number : Reflects {V = ℕ} (λ a b. a == b)
same_number = record { sound = λ a b h. ground arith }

loading_example :
    (ms : List (List ℕ × Tree)) × (datas' : List (List ℕ × ConfigVar ℕ)) × (calls : List (Call ℕ))
    × (list_all_member trees 3 [] document ≡ some ms)
    × (load_from_yaml trees (λ a b. a == b) first_number 3 document table ≡ some (datas', calls))
    × ((name : List ℕ) → lookup_base name table ≡ none → lookup_base name datas' ≡ none)
    × ((name : List ℕ) (var : ConfigVar ℕ)
        → lookup_base name table ≡ some var
        → HoldsAt trees
            (λ a b. a == b)
            first_number
            name
            var
            (last_given (first_number var.kind) (texts trees name ms) var.value)
            datas')
loading_example =
    load_from_yaml-Holds trees (λ a b. a == b) first_number trees_finite 3 document table
      same_number (omega arith)

abbrev made : ConfigVar ℕ
made = config_var (97 ∷ 95 ∷ []) 0 7 []

abbrev looked : Found ℕ × List (List ℕ × ConfigVar ℕ)
looked = lookup_or_add (97 ∷ 95 ∷ []) 0 7 [] []

looked-Reached : Reached trees (λ a b. a == b) first_number looked.1
looked-Reached = looked_up (97 ∷ 95 ∷ []) 0 7 [] [] nothing

looked_found : lookup_base (97 ∷ 95 ∷ []) looked.1 ≡ some made
unfolding lookup_or_add lookup_base is_name in_name
looked_found = refl

named_example : (is_name (97 ∷ 95 ∷ []) ≡ true) × (made.name ≡ 97 ∷ 95 ∷ [])
named_example =
    Reached-Named trees (λ a b. a == b) first_number looked.1 (97 ∷ 95 ∷ []) made looked-Reached
      looked_found

lookup_example :
    Answers (97 ∷ 46 ∷ 98 ∷ []) 1 7 [] table (lookup_or_add (97 ∷ 46 ∷ 98 ∷ []) 1 7 [] table).0
    × ((var : ConfigVar ℕ)
        → (lookup_or_add (97 ∷ 46 ∷ 98 ∷ []) 1 7 [] table).0 ≡ found var
        → lookup (97 ∷ 46 ∷ 98 ∷ []) 1 (lookup_or_add (97 ∷ 46 ∷ 98 ∷ []) 1 7 [] table).1
          ≡ some var)
    × ((lookup_or_add (97 ∷ 46 ∷ 98 ∷ []) 1 7 [] table).0 ≡ other_type
          ⊎ (lookup_or_add (97 ∷ 46 ∷ 98 ∷ []) 1 7 [] table).0 ≡ invalid_argument
        → (lookup_or_add (97 ∷ 46 ∷ 98 ∷ []) 1 7 [] table).1 ≡ table)
    × ((other : List ℕ)
        → same_text (97 ∷ 46 ∷ 98 ∷ []) other ≡ false
        → lookup_base other (lookup_or_add (97 ∷ 46 ∷ 98 ∷ []) 1 7 [] table).1
          ≡ lookup_base other table)
lookup_example = lookup-lookup_or_add (97 ∷ 46 ∷ 98 ∷ []) 1 7 [] table

-- Nodes that are their texts, a sequence with the length of each of its nodes in front of it.
abbrev joined : List (List ℕ) → List ℕ
joined [] = []
joined (n ∷ ns) = length n ∷ n ++ joined ns

abbrev parted : ℕ → List ℕ → List (List ℕ)
parted zero t = []
parted (suc fuel) [] = []
parted (suc fuel) (n ∷ t) = take n t ∷ parted fuel (drop n t)

take_node : (n t : List ℕ) → take (length n) (n ++ t) ≡ n
take_node [] t = refl
take_node (c ∷ n) t = ap (◌∷◌ c) (take_node n t)

drop_node : (n t : List ℕ) → drop (length n) (n ++ t) ≡ t
drop_node [] t = refl
drop_node (c ∷ n) t = drop_node n t

parted-joined :
    (fuel : ℕ) (ns : List (List ℕ)) → length (joined ns) ≤ fuel → parted fuel (joined ns) ≡ ns
parted-joined zero [] h = refl
parted-joined (suc fuel) [] h = refl
parted-joined zero (n ∷ ns) h = absurd (omega arith)
parted-joined (suc fuel) (n ∷ ns) h =
    let room = length-append n (joined ns) in
    let rest = parted-joined fuel ns (omega (arith, room)) in
    λ i. take_node n (joined ns) i ∷ (ap (parted fuel) (drop_node n (joined ns)) ∙ rest) i

abbrev flat : Yaml
flat = record {
  Node = List ℕ;
  load = λ t. some t;
  print = λ t. t;
  items = λ t. parted (length t) t;
  sequence = joined;
  is_map = λ t. false;
  entries = λ t. [];
  is_scalar = λ t. true;
  scalar = λ t. t;
}

flat-PrintsBack : PrintsBack flat
flat-PrintsBack = record {
  load_print = λ t. refl;
  items_sequence = λ ns. parted-joined (length (joined ns)) ns (omega arith);
}

abbrev numbers : List ℕ
numbers = 4 ∷ 7 ∷ []

casts_example :
    (text : List ℕ) × (n : List ℕ) × (vector_to_string flat (λ c. c ∷ []) numbers ≡ some text)
    × (some text ≡ some n)
    × (vector_from_string flat (first_number 0) n ≡ some numbers)
casts_example =
    vector_from_string-vector_to_string flat (first_number 0) (λ c. c ∷ []) numbers flat-PrintsBack
      ((4 ∷ [], refl, refl), ((7 ∷ [], refl, refl), tt))
