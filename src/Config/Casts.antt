-- ===== src/Config/Casts.antt =====
-- `LexicalCast` between texts and sequences (config/config.h). A cast that throws is none.
use sylar_net_server_framewo.Common.{ℕ, ◌≡◌, refl, Option, none, some, List, [], ◌∷◌, All}
use sylar_net_server_framewo.Config.Yaml.{Yaml, PrintsBack}

module _ (y : Yaml) {T : Type 0} where
  -- The loop of `LexicalCast<std::string, std::vector<T>>` over `node[i]`
  unfoldable pub cast_items : (List ℕ → Option T) → List y.Node → Option (List T)
  cast_items from [] = some []
  cast_items from (n ∷ ns) = elim (from (y.print n)) [
    | none ↦ none
    | some x ↦ elim (cast_items from ns) [ none ↦ none | some xs ↦ some (x ∷ xs) ]
  ]

  -- `LexicalCast<std::string, std::vector<T>>`
  unfoldable pub vector_from_string : (List ℕ → Option T) → List ℕ → Option (List T)
  vector_from_string from v = elim (y.load v) [ none ↦ none | some n ↦ cast_items from (y.items n) ]

  -- The loop of `LexicalCast<std::vector<T>, std::string>`
  unfoldable pub cast_nodes : (T → List ℕ) → List T → Option (List y.Node)
  cast_nodes to [] = some []
  cast_nodes to (x ∷ xs) = elim (y.load (to x)) [
    | none ↦ none
    | some n ↦ elim (cast_nodes to xs) [ none ↦ none | some ns ↦ some (n ∷ ns) ]
  ]

  -- `LexicalCast<std::vector<T>, std::string>`
  unfoldable pub vector_to_string : (T → List ℕ) → List T → Option (List ℕ)
  vector_to_string to v = elim (cast_nodes to v) [
    | none ↦ none
    | some ns ↦ some (y.print (y.sequence ns))
  ]

  -- A value whose text loads as a node, the text of which is cast back to the value.
  abbrev pub Castable : (List ℕ → Option T) → (T → List ℕ) → T → Type 0
  Castable from to x = (n : y.Node) × (y.load (to x) ≡ some n) × (from (y.print n) ≡ some x)

  nodes-items :
      (from : List ℕ → Option T) (to : T → List ℕ) (v : List T)
      → All (Castable from to) v
      → (ns : List y.Node) × (cast_nodes to v ≡ some ns) × (cast_items from ns ≡ some v)
  unfolding cast_nodes cast_items
  nodes-items from to [] h = ([], refl, refl)
  nodes-items from to (x ∷ xs) ((n, l, b), h) =
      let (ns, p, q) = nodes-items from to xs h in
      (n ∷ ns, rw (cast_nodes, l, p) refl, rw (cast_items, b, q) refl)

  -- A sequence of values that are cast back is cast to a text, which loads as a node, and the text of
  -- this node is cast back to the sequence; so sequences of sequences are cast back as well.
  pub vector_from_string-vector_to_string :
      (from : List ℕ → Option T) (to : T → List ℕ) (v : List T)
      → PrintsBack y
      → All (Castable from to) v
      → (text : List ℕ) × (n : y.Node) × (vector_to_string to v ≡ some text)
        × (y.load text ≡ some n)
        × (vector_from_string from (y.print n) ≡ some v)
  unfolding vector_from_string vector_to_string
  vector_from_string-vector_to_string from to v laws h =
      let (ns, p, q) = nodes-items from to v h in
      let n : y.Node = y.sequence ns in
      (
        y.print n,
        n,
        rw (vector_to_string, p) refl,
        laws.load_print n,
        rw (vector_from_string, laws.load_print n, laws.items_sequence ns) q,
      )
