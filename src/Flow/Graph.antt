-- ===== src/Flow/Graph.antt =====
-- The edges of a flow, and the tables that pyflow_runtime/flow_dag.py builds over them.
use mathlib.Core.List.{Memᴰ}
use python_flow_hub.Value.{Value}
use python_flow_hub.Prelude.{
  Option, ℕ, ◌+◌, String, ◌≡◌, true, not, ◌&&◌, List, [], ◌∷◌, ◌++◌, contains, ◌==◌, if◌then◌else◌,
}

-- The keys of an edge's dictionary that the library reads.
pub record Edge : Type 0 where
  pub source_node_id : String
  pub target_node_id : String
  pub source_port : String

-- One item of a switch node's "branches".
pub record Case : Type 0 where
  pub value : Option Value
  pub port : Option String

-- The keys of a node's "config" that the library reads, each absent or present.
pub record Config : Type 0 where
  pub subtype : Option String
  pub condition_language : Option String
  pub condition_expression : Option String
  pub true_port : Option String
  pub false_port : Option String
  pub switch_field : Option String
  pub branches : List Case
  pub default_port : Option String
  pub key : Option String
  pub value : Option Value
  pub entrypoint : Option String

pub record Node : Type 0 where
  pub id : String
  pub node_type : Option String
  pub block_id : Option String
  pub config : Config

pub data DagError : Type 0 where
  unknown_node cycle out_of_fuel : DagError

-- The successors of a node, once for each edge, in the order of the edges.
unfoldable pub successors : List Edge → String → List String
successors [] u = []
successors (e ∷ es) u =
    if e.source_node_id == u then e.target_node_id ∷ successors es u else successors es u

-- How many edges into `v` start outside `done`.
unfoldable pub waiting : List Edge → List String → String → ℕ
waiting [] done v = 0
waiting (e ∷ es) done v =
    (if e.target_node_id == v && not (contains e.source_node_id done) then 1 else 0)
    + waiting es done v

-- Every edge starts and ends at a node of `ids`.
abbrev pub AllKnown : List String → List Edge → Type 0
AllKnown ids [] = Unit {0}
AllKnown ids (e ∷ es) =
    (contains e.source_node_id ids ≡ true)
    × (contains e.target_node_id ids ≡ true)
    × AllKnown ids es

-- `s` stands somewhere in front of an occurrence of `t`.
abbrev pub Precedes : String → String → List String → Type 0
Precedes s t order =
    (before after : List String) × (order ≡ before ++ t ∷ after) × (contains s before ≡ true)

-- Every edge leads forward in the order.
abbrev pub IsTopological : List Edge → List String → Type 0
IsTopological edges order =
    (e : Edge) → Memᴰ e edges → Precedes e.source_node_id e.target_node_id order
