-- ===== src/Flow/Topology.antt =====
-- `topological_order` of pyflow_runtime/flow_dag.py (Kahn's algorithm).
pub mod Degrees
pub mod Loop
pub mod Ends
pub mod Correct
pub mod Order
use python_flow_hub.Prelude.{
  ℕ, zero, suc, ◌-◌, String, Bool, not, ◌||◌, List, [], ◌∷◌, ◌++◌, map, Option, some, none, length,
  select, contains, eqb, ◌==◌, if◌then◌else◌, Result, ok, err, ◌>>=◌,
}
use python_flow_hub.Flow.Graph.{Edge, DagError, unknown_node, cycle, out_of_fuel}

-- `adj` and `indegree`, as functions of the node: a missing key of the `defaultdict` is `[]`, and
-- every node of an edge has been checked before `indegree` is read at it.
pub record Tables : Type 0 where
  pub adj : String → List String
  pub indegree : String → ℕ

unfoldable pub link : Tables → Edge → Tables
link t e = record {
  adj = λ n. if e.source_node_id == n then t.adj n ++ e.target_node_id ∷ [] else t.adj n;
  indegree = λ n. if e.target_node_id == n then suc (t.indegree n) else t.indegree n;
}

-- The loop over the edges.
unfoldable pub build : List String → Tables → List Edge → Result DagError Tables
unfolding link
build ids t [] = ok t
build ids t (e ∷ es) =
    if not (contains e.source_node_id ids) || not (contains e.target_node_id ids)
    then err unknown_node
    else build ids (link t e) es

-- The state that the inner `for` loop changes.
pub record Frontier : Type 0 where
  pub indegree : String → ℕ
  pub queue : List String

unfoldable pub relax : Frontier → String → Frontier
relax f nxt =
    let left = f.indegree nxt - 1 in
    record {
      indegree = λ n. if nxt == n then left else f.indegree n;
      queue = if eqb left 0 then f.queue ++ nxt ∷ [] else f.queue;
    }

unfoldable pub relax_all : Frontier → List String → Frontier
unfolding relax
relax_all f [] = f
relax_all f (nxt ∷ rest) = relax_all (relax f nxt) rest

-- The `while queue` loop on fuel; `none` means that the fuel ran out.
unfoldable pub drain :
    (String → List String)
    → (queue : List String) → (String → ℕ)
    → (order : List String) → ℕ
    → Option (List String)
unfolding relax_all
drain adj [] indegree order fuel = some order
drain adj (cur ∷ queue) indegree order zero = none
drain adj (cur ∷ queue) indegree order (suc fuel) =
    let f = relax_all (record { indegree = indegree; queue = queue }) (adj cur) in
    drain adj f.queue f.indegree (order ++ cur ∷ []) fuel

abbrev pub no_tables : Tables
no_tables = record { adj = λ n. []; indegree = λ n. 0 }

abbrev pub roots : List String → Tables → List String
roots ids t = select (λ n. eqb (t.indegree n) 0) ids

unfoldable pub finish : List String → Option (List String) → Result DagError (List String)
finish ids none = err out_of_fuel
finish ids (some order) = if eqb (length order) (length ids) then ok order else err cycle

-- Over the ids of the nodes in the order in which the interpreter walks the set.
unfoldable pub order_of : List String → List Edge → Result DagError (List String)
unfolding build drain finish
order_of ids edges = do
  t ← build ids no_tables edges
  finish ids (drain t.adj (roots ids t) t.indegree [] (length ids))

-- `set_of` is the order in which the interpreter walks the set of the ids.
unfoldable pub topological_order :
    (List String → List String) → List String → List Edge → Result DagError (List String)
unfolding order_of
topological_order set_of node_ids edges = order_of (set_of node_ids) edges
