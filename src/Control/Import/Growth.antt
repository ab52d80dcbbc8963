-- ===== src/Control/Import/Growth.antt =====
-- The greedy loop of `infer_data_flow_edges` (backend/app/core/flow/zip_import.py): the edges that it
-- chooses close no cycle, and it leaves out only edges that would.
use mathlib.Core.List.{Memᴰ, map-append}
use mathlib.Core.List.Memᴰ.{append_cases, cases_cons, not-nil, append_left, append_right}
use mathlib.Core.Path.{fun_ext}
use python_flow_hub.Prelude.{
  ℕ, suc, String, ◌≡◌, refl, sym, subst, some, List, [], ◌∷◌, Dict, length, inl, inr, ◌⊎◌,
}
use python_flow_hub.Flow.Graph.{Edge}
use python_flow_hub.Flow.Topology.Order.{IsSetOrder, IsRanked}
use python_flow_hub.Flow.Entry.Search.{Reach}
use python_flow_hub.Control.Import.{
  Candidate, Inferred, as_edge, Chosen, choose, reachable, node_id_of, add_all,
}
use python_flow_hub.Control.Import.Search.{Decides, reachable-Decides}
use python_flow_hub.Control.Import.Greedy.{
  graph, Tabled, inferred, length-map, Reach-append, choose-graph, choose-Tabled,
  raised_above-IsRanked,
}

-- The edge of a candidate.
abbrev pub edge_of : Dict String → Candidate → Inferred
edge_of node_id_map cand =
    inferred (node_id_of node_id_map cand.src_path) (node_id_of node_id_map cand.dst_path)
      cand.matched

-- The candidate has its edge, or the edge would close a cycle.
abbrev pub IsSettled : Dict String → Chosen → Candidate → Type 0
IsSettled node_id_map final cand =
    Memᴰ (edge_of node_id_map cand) final.edges
    ⊎ Reach (graph final) (node_id_of node_id_map cand.dst_path)
        (node_id_of node_id_map cand.src_path)

-- What the loop makes of the edges it begins with.
pub record Grown (node_id_map : Dict String) (start : Chosen) (cands : List Candidate)
    (final : Chosen) : Type 0 where
  pub acyclic : (rank : String → ℕ) × IsRanked rank (graph final)
  pub keeps : (e : Inferred) → Memᴰ e start.edges → Memᴰ e final.edges
  pub walks : (a b : String) → Reach (graph start) a b → Reach (graph final) a b
  pub settled : (cand : Candidate) → Memᴰ cand cands → IsSettled node_id_map final cand
  pub sound :
      (e : Inferred)
      → Memᴰ e final.edges
      → Memᴰ e start.edges ⊎ ((cand : Candidate) × Memᴰ cand cands × (e ≡ edge_of node_id_map cand))

module _ (set_of : List String → List String) (is_order : IsSetOrder set_of)
    (node_id_map : Dict String) where
  -- The test before a candidate is chosen.
  closes-Decides :
      (c : Chosen) (s t : String)
      → Tabled c
      → Decides (graph c) t s (reachable (λ n. set_of (c.adj n)) t s (suc (length c.edges)))
  closes-Decides c s t tabled =
      subst
        (λ (adj : String → List String).
          Decides (graph c) t s (reachable (λ n. set_of (adj n)) t s (suc (length c.edges))))
        (sym (fun_ext tabled))
        (rw (← length-map c.edges) (reachable-Decides set_of is_order (graph c) t s))

  Grown-skip :
      (c : Chosen) (cand : Candidate) (cands : List Candidate) (final : Chosen)
      → Reach
          (graph c)
          (edge_of node_id_map cand).target_node_id
          (edge_of node_id_map cand).source_node_id
      → Grown node_id_map c cands final
      → Grown node_id_map c (cand ∷ cands) final
  Grown-skip c cand cands final back g = record {
    acyclic = g.acyclic;
    keeps = g.keeps;
    walks = g.walks;
    settled = λ d m. elim (cases_cons m) [
      | inl same ↦ subst (IsSettled node_id_map final) (sym same) (inr (g.walks _ _ back))
      | inr later ↦ g.settled d later
    ];
    sound = λ e m. elim (g.sound e m) [
      | inl old ↦ inl old
      | inr (d, md, eq) ↦ inr (d, Memᴰ.tail md, eq)
    ];
  }

  Grown-choose :
      (c : Chosen) (cand : Candidate) (cands : List Candidate) (final : Chosen)
      → Grown node_id_map
          (choose c
            (node_id_of node_id_map cand.src_path)
            (node_id_of node_id_map cand.dst_path)
            cand.matched)
          cands
          final
      → Grown node_id_map c (cand ∷ cands) final
  unfolding choose
  Grown-choose c cand cands final g =
      let e = edge_of node_id_map cand in
      record {
        acyclic = g.acyclic;
        keeps = λ x m. g.keeps x (append_left (e ∷ []) m);
        walks = λ a b w. g.walks a b (
            subst (λ (es : List Edge). Reach es a b) (sym (map-append as_edge c.edges (e ∷ [])))
              (Reach-append (graph c) (as_edge e) a b w));
        settled = λ d m. elim (cases_cons m) [
          | inl same ↦
              subst (IsSettled node_id_map final) (sym same)
                (inl (g.keeps e (append_right c.edges (Memᴰ.head refl))))
          | inr later ↦ g.settled d later
        ];
        sound = λ x m. elim (g.sound x m) [
          | inl old ↦ elim (append_cases c.edges old) [
            | inl before ↦ inl before
            | inr new ↦ elim (cases_cons new) [
              | inl same ↦ inr (cand, Memᴰ.head refl, same)
              | inr later ↦ absurd (not-nil later)
            ]
          ]
          | inr (d, md, eq) ↦ inr (d, Memᴰ.tail md, eq)
        ];
      }

  pub add_all-Grown :
      (c : Chosen) (cands : List Candidate) (rank : String → ℕ)
      → Tabled c
      → IsRanked rank (graph c)
      → (final : Chosen) × (add_all set_of node_id_map c cands ≡ some final)
        × Grown node_id_map c cands final
  unfolding add_all
  add_all-Grown c [] rank tabled ranked = (
    c,
    refl,
    record {
      acyclic = (rank, ranked);
      keeps = λ e m. m;
      walks = λ a b w. w;
      settled = λ cand m. absurd (not-nil m);
      sound = λ e m. inl m;
    },
  )
  add_all-Grown c (cand ∷ cands) rank tabled ranked =
      let s = node_id_of node_id_map cand.src_path in
      let t = node_id_of node_id_map cand.dst_path in
      elim (closes-Decides c s t tabled) [
        | inl (closes, back) ↦
            let (final, ran, g) = add_all-Grown c cands rank tabled ranked in
            (final, rw (closes, add_all) ran, Grown-skip c cand cands final back g)
        | inr (stays, open_end) ↦
            let (rank', ranked') =
              raised_above-IsRanked (graph c) (as_edge (inferred s t cand.matched)) rank ranked
                open_end in
            let (final, ran, g) =
              add_all-Grown (choose c s t cand.matched) cands rank'
                (choose-Tabled c s t cand.matched tabled)
                (subst (λ (es : List Edge). IsRanked rank' es)
                  (sym (choose-graph c s t cand.matched)) ranked') in
            (final, rw (stays, add_all) ran, Grown-choose c cand cands final g)
      ]
