-- ===== src/Control/Import/Whole.antt =====
-- What `infer_data_flow_edges` (backend/app/core/flow/zip_import.py) returns, and that a flow of its edges
-- can be run.
use mathlib.Core.List.{Memᴰ}
use mathlib.Core.List.Memᴰ.{not-nil}
use python_flow_hub.Prelude.{
  String, ◌≡◌, ◌≢◌, ◌↔◌, refl, sym, ◌∙◌, ap, subst, true, false, some, List, [], ◌∷◌, map, Dict,
  lookup, arith, contains, contains_of_count, eq_iff, inl, inr, ◌⊎◌, ◌==◌, Result-cases, ok,
  mem_of_contains, contains_of_mem,
}
use python_flow_hub.Flow.Graph.{successors, unknown_node, cycle, out_of_fuel, AllKnown}
use python_flow_hub.Flow.Topology.{topological_order}
use python_flow_hub.Flow.Topology.Order.{
  IsSetOrder, topological_order-eq-cycle, topological_order-eq-unknown_node,
}
use python_flow_hub.Flow.Entry.Search.{Reach}
use python_flow_hub.Control.Import.{
  Candidate, Inferred, as_edge, Chosen, sort, stronger, text_before, node_id_of, keys, no_edges,
  matched_of, candidates, infer_data_flow_edges,
}
use python_flow_hub.Control.Import.Scan.{Ast}
use python_flow_hub.Control.Import.Greedy.{Tabled}
use python_flow_hub.Control.Import.Growth.{edge_of, Grown, add_all-Grown}
use python_flow_hub.Control.Import.Scan.{extract_return_keys, extract_input_keys}
use python_flow_hub.Control.Import.Pairs.{mem-sort, pair, candidates-pair, candidates_sound}
use python_flow_hub.Prelude.{mem-select}
use python_flow_hub.Control.Import.{text_or_empty}

abbrev pub ids_of : Dict String → List String
ids_of d = map (λ p. p.1) d

-- The id of a key is one of the ids.
contains-node_id_of :
    (d : Dict String) (path : String)
    → contains path (keys d) ≡ true
    → contains (node_id_of d path) (ids_of d) ≡ true
unfolding lookup
contains-node_id_of [] path h = absurd (cc)
contains-node_id_of ((k, v) ∷ d) path h = ground (arith, contains-node_id_of d path, eq_iff v v)

no_edges-Tabled : Tabled no_edges
unfolding successors
no_edges-Tabled n = refl

module _ (ast : Ast) (set_of : List String → List String) (is_order : IsSetOrder set_of)
    (scripts node_id_map : Dict String) where
  abbrev paths : List String
  paths = keys node_id_map

  abbrev sorted : List Candidate
  sorted = sort stronger (candidates ast scripts paths paths)

  grown :
      (final : Chosen) × (infer_data_flow_edges ast set_of scripts node_id_map ≡ some final.edges)
      × Grown node_id_map no_edges sorted final
  unfolding infer_data_flow_edges
  grown =
      let (final, ran, g) =
        add_all-Grown set_of is_order node_id_map no_edges sorted (λ v. 0) no_edges-Tabled
          (λ e m. absurd (not-nil m)) in
      (final, rw ran refl, g)

  -- A script returns a key that another one reads.
  abbrev pub Shares : String → (src dst : String) → Type 0
  Shares k src dst =
      (contains src paths ≡ true)
      × (contains dst paths ≡ true)
      × (src ≢ dst)
      × (contains k (extract_return_keys ast (text_or_empty (lookup src scripts))) ≡ true)
      × (contains k (extract_input_keys ast (text_or_empty (lookup dst scripts))) ≡ true)

  -- The edge of two scripts, with the keys that they share.
  pub record IsEdgeOf (src dst : String) (e : Inferred) : Type 0 where
    pub source : e.source_node_id ≡ node_id_of node_id_map src
    pub target : e.target_node_id ≡ node_id_of node_id_map dst
    pub matched : (k : String) → Memᴰ k e.matched_keys ↔ Shares k src dst

  edge_of-IsEdgeOf :
      (src dst : String)
      → contains src paths ≡ true
      → contains dst paths ≡ true
      → (src == dst) ≡ false
      → IsEdgeOf src dst (edge_of node_id_map (pair ast scripts src dst))
  edge_of-IsEdgeOf src dst ms md apart = record {
    source = refl;
    target = refl;
    matched = λ k.
        let reads = extract_input_keys ast (text_or_empty (lookup dst scripts)) in
        let returns = extract_return_keys ast (text_or_empty (lookup src scripts)) in
        let shared = mem-select (λ (j : String). contains j reads) k returns in
        let same = mem-sort text_before k (matched_of ast scripts src dst) in
        (
          λ m.
              let (returned, read) = shared.0 (same.0 m) in
              (ms, md, ground (arith, eq_iff src dst), contains_of_mem k returns returned, read),
          λ (_, _, _, returned, read). same.1 (shared.1 (mem_of_contains k returns returned, read)),
        );
  }

  -- Each edge is the edge of two scripts that share a key, and two such scripts have an edge, or
  -- the edges lead back from the second to the first.
  pub record Infers (edges : List Inferred) : Type 0 where
    pub sound :
        (e : Inferred) → Memᴰ e edges → (src dst k : String) × Shares k src dst × IsEdgeOf src dst e
    pub maximal :
        (src dst k : String)
        → Shares k src dst
        → ((e : Inferred) × Memᴰ e edges × IsEdgeOf src dst e)
          ⊎ Reach (map as_edge edges) (node_id_of node_id_map dst) (node_id_of node_id_map src)

  grown_sound :
      (e : Inferred)
      → Memᴰ e grown.0.edges
      → (src dst k : String) × Shares k src dst × IsEdgeOf src dst e
  grown_sound e m = elim (grown.2.sound e m) [
    | inl none_before ↦ absurd (not-nil none_before)
    | inr (cand, mc, eq) ↦
        let (src, dst, k, ms, md, apart, mk, same) =
          candidates_sound ast scripts paths paths cand ((mem-sort stronger cand _).0 mc) in
        let is_edge =
          edge_of-IsEdgeOf src dst (contains_of_mem src paths ms) (contains_of_mem dst paths md)
            apart in
        (
          src,
          dst,
          k,
          (is_edge.matched k).0 ((mem-sort text_before k _).1 mk),
          subst (IsEdgeOf src dst) (sym (eq ∙ ap (edge_of node_id_map) same)) is_edge,
        )
  ]

  -- Two different scripts of which the first returns a key that the second reads have an edge with
  -- all such keys, or it would close a cycle; and there is no other edge.
  pub infer_data_flow_edges-Infers :
      (edges : List Inferred) × (infer_data_flow_edges ast set_of scripts node_id_map ≡ some edges)
      × Infers edges
  infer_data_flow_edges-Infers = (
    grown.0.edges,
    grown.1,
    record {
      sound = grown_sound;
      maximal = λ src dst k (ms, md, other, returned, read).
          let apart : (src == dst) ≡ false = ground (arith, eq_iff src dst) in
          let mk =
            (mem-select
                (λ (j : String).
                  contains j (extract_input_keys ast (text_or_empty (lookup dst scripts))))
                k (extract_return_keys ast (text_or_empty (lookup src scripts)))).1
              (mem_of_contains k _ returned, read) in
          let there =
            candidates-pair ast scripts src dst k paths paths (mem_of_contains src paths ms)
              (mem_of_contains dst paths md) apart mk in
          elim (grown.2.settled (pair ast scripts src dst) ((mem-sort stronger _ _).1 there)) [
            | inl chosen ↦ inl (_, chosen, edge_of-IsEdgeOf src dst ms md apart)
            | inr back ↦ inr back
          ];
    },
  )

  AllKnown_of :
      (es : List Inferred)
      → ((e : Inferred) → Memᴰ e es → Memᴰ e grown.0.edges)
      → AllKnown (set_of (ids_of node_id_map)) (map as_edge es)
  AllKnown_of [] h = tt
  AllKnown_of (e ∷ es) h =
      let (src, dst, k, (ms, md, _, _, _), is_edge) = grown_sound e (h e (Memᴰ.head refl)) in
      let known = λ (path : String) (m : contains path paths ≡ true).
        contains_of_count (node_id_of node_id_map path) (set_of (ids_of node_id_map)) (
          ground (
            arith,
            is_order (ids_of node_id_map) (node_id_of node_id_map path),
            contains-node_id_of node_id_map path m,
          )) in
      (
        rw is_edge.source (known src ms),
        rw is_edge.target (known dst md),
        AllKnown_of es (λ x m. h x (Memᴰ.tail m)),
      )

  -- The flow of the inferred edges has an order: `topological_order` raises no error on it.
  pub infer_data_flow_edges-topological_order :
      (edges : List Inferred) × (order : List String) × (infer_data_flow_edges ast set_of scripts
          node_id_map
        ≡ some edges)
      × (topological_order set_of (ids_of node_id_map) (map as_edge edges) ≡ ok order)
  infer_data_flow_edges-topological_order =
      let es = map as_edge grown.0.edges in
      let ids = ids_of node_id_map in
      let known : AllKnown (set_of ids) es = AllKnown_of grown.0.edges (λ e m. m) in
      let (rank, ranked) = grown.2.acyclic in
      elim (Result-cases (topological_order set_of ids es)) [
        | inl (order, h) ↦ (grown.0.edges, order, grown.1, h)
        | inr (unknown_node, h) ↦
            absurd ((topological_order-eq-unknown_node set_of is_order ids es).0.0 h known)
        | inr (cycle, h) ↦
            absurd ((topological_order-eq-cycle set_of is_order ids es known).0 h rank ranked)
        | inr (out_of_fuel, h) ↦
            absurd ((topological_order-eq-unknown_node set_of is_order ids es).1 h)
      ]
