-- ===== src/Flow/Entry.antt =====
-- `select_entry_subgraph` of pyflow_runtime/flow_dag.py.
pub mod Search
pub mod Subgraph
use python_flow_hub.Prelude.{
  ℕ, zero, suc, String, Bool, not, ◌&&◌, ◌||◌, List, [], ◌∷◌, map, Option, some, none, length,
  select, contains, if◌then◌else◌, ◌==◌,
}
use python_flow_hub.Flow.Graph.{Edge, Node, successors}

-- `for nxt in adj.get(cur, [])`: the head of the list is the top of the stack.
unfoldable pub push_all : List String → List String → List String → List String
push_all reachable stack [] = stack
push_all reachable stack (nxt ∷ rest) =
    push_all reachable (if contains nxt reachable then stack else nxt ∷ stack) rest

-- The `while stack` loop on fuel; `none` means that the fuel ran out.
unfoldable pub explore :
    (String → List String) → (stack reachable : List String) → ℕ → Option (List String)
unfolding push_all
explore adj [] reachable fuel = some reachable
explore adj (cur ∷ stack) reachable zero = none
explore adj (cur ∷ stack) reachable (suc fuel) =
    explore adj
      (if contains cur reachable then stack else push_all (cur ∷ reachable) stack (adj cur))
      (if contains cur reachable then reachable else cur ∷ reachable) fuel

-- The comprehensions over the result of the search.
unfoldable pub restrict : List Node → List Edge → List String → List Node × List Edge
restrict nodes edges reachable = (
  select (λ n. contains n.id reachable) nodes,
  select (λ e. contains e.source_node_id reachable && contains e.target_node_id reachable) edges,
)

unfoldable pub or_all : List Node → List Edge → Option (List String) → List Node × List Edge
or_all nodes edges none = (nodes, edges)
or_all nodes edges (some reachable) = restrict nodes edges reachable

unfoldable pub select_entry_subgraph : List Node → List Edge → Option String → List Node × List Edge
unfolding explore restrict or_all
select_entry_subgraph nodes edges none = (nodes, edges)
select_entry_subgraph nodes edges (some entry) =
    if entry == "" || not (contains entry (map (λ n. n.id) nodes))
    then (nodes, edges)
    else or_all nodes edges (explore (successors edges) (entry ∷ []) [] (suc (length edges)))
