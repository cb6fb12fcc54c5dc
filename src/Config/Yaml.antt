-- ===== src/Config/Yaml.antt =====
-- What the configuration uses of yaml-cpp: `YAML::Node` with its methods, `YAML::Load` and the printing
-- of a node.
use sylar_net_server_framewo.Common.{ℕ, ◌<◌, ◌≡◌, Bool, Option, some, List, All}

pub record Yaml : Type 1 where
  pub Node : Type 0
  pub load : List ℕ → Option Node
  pub print : Node → List ℕ
  pub items : Node → List Node
  pub sequence : List Node → Node
  pub is_map : Node → Bool
  pub entries : Node → List (List ℕ × Node)
  pub is_scalar : Node → Bool
  pub scalar : Node → List ℕ

-- A node that is printed loads again, and a sequence has the nodes that it was made from.
pub record PrintsBack (y : Yaml) : Type 0 where
  pub load_print : (n : y.Node) → y.load (y.print n) ≡ some n
  pub items_sequence : (ns : List y.Node) → y.items (y.sequence ns) ≡ ns

-- The nodes of a document are finite trees: the entries of a node are lower than the node.
pub record Finite (y : Yaml) : Type 0 where
  pub height : y.Node → ℕ
  pub lower : (n : y.Node) → All (λ e. height e.1 < height n) (y.entries n)
