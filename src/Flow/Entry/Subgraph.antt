-- ===== src/Flow/Entry/Subgraph.antt =====
-- What `select_entry_subgraph` keeps.
use mathlib.Core.List.{Memᴰ}
use python_flow_hub.Prelude.{
  String, ◌≡◌, refl, ◌≢◌, ◌↔◌, true, false, ◌&&◌, some, none, List, [], ◌∷◌, arith, contains, map,
  eq_iff, ◌==◌, Bool-cases, inl, inr, mem-select,
}
use python_flow_hub.Flow.Graph.{Edge, Node, successors}
use python_flow_hub.Flow.Entry.{restrict, or_all, select_entry_subgraph}
use python_flow_hub.Flow.Entry.Search.{Reach, here, step, Found, explore-entry}

successors-edge :
    (es : List Edge) (u v : String)
    → contains v (successors es u) ≡ true
    → (e : Edge) × Memᴰ e es × (e.source_node_id ≡ u) × (e.target_node_id ≡ v)
unfolding successors
successors-edge [] u v h = absurd (cc)
successors-edge (e ∷ es) u v h =
    elim (Bool-cases (e.source_node_id == u && e.target_node_id == v)) [
      | inl this ↦ (
        e,
        Memᴰ.head refl,
        ground (arith, eq_iff e.source_node_id u),
        ground (arith, eq_iff e.target_node_id v),
      )
      | inr other ↦
          let (e', m, s, t) = successors-edge es u v (ground arith) in (e', Memᴰ.tail m, s, t)
    ]

-- A selected subgraph: the nodes and edges on the walks from the entry.
pub record IsReached (nodes : List Node) (edges : List Edge) (entry : String)
    (sub_nodes : List Node) (sub_edges : List Edge) : Type 0 where
  pub kept_node : (n : Node) → Memᴰ n sub_nodes ↔ (Memᴰ n nodes × Reach edges entry n.id)
  pub kept_edge :
      (e : Edge)
      → Memᴰ e sub_edges
        ↔ (Memᴰ e edges × Reach edges entry e.source_node_id × Reach edges entry e.target_node_id)
  pub only_root :
      (n : Node)
      → Memᴰ n sub_nodes
      → n.id ≢ entry
      → (e : Edge) × Memᴰ e sub_edges × (e.target_node_id ≡ n.id)

module _ (nodes : List Node) (edges : List Edge) (entry : String) (reachable : List String)
    (found : Found edges entry reachable) where
  open found use {sound, complete}

  kept_edge_lem :
      (e : Edge)
      → Memᴰ e (restrict nodes edges reachable).1
        ↔ (Memᴰ e edges × Reach edges entry e.source_node_id × Reach edges entry e.target_node_id)
  unfolding restrict
  kept_edge_lem e =
      let test =
        λ (x : Edge). contains x.source_node_id reachable && contains x.target_node_id reachable in
      (
        λ m.
            let (m', h) = (mem-select test e edges).0 m in
            (m', sound e.source_node_id (ground arith), sound e.target_node_id (ground arith)),
        λ (m, s, t).
            (mem-select test e edges).1
              (m, ground (arith, complete e.source_node_id s, complete e.target_node_id t)),
      )

  last_edge :
      (v : String)
      → Reach edges entry v
      → v ≢ entry
      → (e : Edge) × Memᴰ e (restrict nodes edges reachable).1 × (e.target_node_id ≡ v)
  last_edge v here other = absurd (other refl)
  last_edge v (step {b} w s) other =
      let (e, m, from, to) = successors-edge edges b v s in
      (e, (kept_edge_lem e).1 (m, rw from w, rw to (step w s)), to)

  restrict-IsReached :
      IsReached nodes edges entry
        (restrict nodes edges reachable).0
        (restrict nodes edges reachable).1
  unfolding restrict
  restrict-IsReached = record {
    kept_node = λ n.
        let test = λ (x : Node). contains x.id reachable in
        (
          λ m. let (m', h) = (mem-select test n nodes).0 m in (m', sound n.id h),
          λ (m, w). (mem-select test n nodes).1 (m, complete n.id w),
        );
    kept_edge = kept_edge_lem;
    only_root = λ n m other.
        last_edge n.id
          (sound n.id ((mem-select (λ (x : Node). contains x.id reachable) n nodes).0 m).1) other;
  }

module _ (nodes : List Node) (edges : List Edge) (entry : String) where
  -- From an entry that is a node, exactly the nodes and edges on the walks from it are kept, and
  -- every kept node but the entry has a kept edge into it, so the entry is the only root.
  pub select_entry_subgraph-IsReached :
      (entry ≢ "")
      → contains entry (map (λ (n : Node). n.id) nodes) ≡ true
      → IsReached nodes edges entry
          (select_entry_subgraph nodes edges (some entry)).0
          (select_entry_subgraph nodes edges (some entry)).1
  unfolding select_entry_subgraph
  select_entry_subgraph-IsReached named member =
      let (reachable, ran, found) = explore-entry edges entry in
      let e : (entry == "") ≡ false = ground (arith, eq_iff entry "") in
      rw (e, member, ran, or_all) (restrict-IsReached nodes edges entry reachable found)

  -- With no entry, or one that is no node, the flow is kept whole.
  pub select_entry_subgraph-whole :
      contains entry (map (λ (n : Node). n.id) nodes) ≡ false
      → (select_entry_subgraph nodes edges (some entry) ≡ (nodes, edges))
        × (select_entry_subgraph nodes edges none ≡ (nodes, edges))
  unfolding select_entry_subgraph
  select_entry_subgraph-whole other = (ground arith, refl)
