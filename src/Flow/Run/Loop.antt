-- ===== src/Flow/Run/Loop.antt =====
-- The loop over the order settles each node once.
use mathlib.Core.List.{Memᴰ}
use python_flow_hub.Prelude.{
  ◌+◌, ◌≤◌, String, ◌≡◌, sym, ◌∙◌, ap, true, false, Option, some, List, [], ◌∷◌, ◌++◌, Dict, lookup,
  contains, count, count-append, count_of_contains, ◌==◌, eq_refl, eq_iff, Result, ok, arith,
  Bool-cases, Option-cases, inl, inr, ◌⊎◌, Result-cases, mem-select,
}
use python_flow_hub.Value.{Value}
use python_flow_hub.Runtime.Errors.{Error}
use python_flow_hub.Runtime.Engines.{Engines}
use python_flow_hub.Flow.Graph.{Edge, Node}
use python_flow_hub.Flow.Inputs.{in_edges}
use python_flow_hub.Flow.Topology.Loop.{Ordered}
use python_flow_hub.Flow.Topology.Correct.{waiting_zero}
use python_flow_hub.Flow.Run.{Run, Callbacks, continue, is_done, visit_found, run_nodes}
use python_flow_hub.Flow.Run.Frame.{Same, visit_found-Frames, run_nodes-Frames}
use python_flow_hub.Flow.Run.Settles.{Settles, Settles-Same}
use python_flow_hub.Flow.Run.Visit.{visit-Settles}

-- No edge into a node starts at it or behind it, and no node stands twice.
abbrev pub NoneBack : List Edge → List String → Type 0
NoneBack edges [] = Unit {0}
NoneBack edges (x ∷ xs) =
    ((e : Edge) → Memᴰ e (in_edges edges x) → contains e.source_node_id (x ∷ xs) ≡ false)
    × (contains x xs ≡ false)
    × NoneBack edges xs

pub NoneBack-of_Ordered :
    (edges : List Edge) (seen xs : List String)
    → ((v : String) → count v seen + count v xs ≤ 1)
    → Ordered edges seen xs
    → NoneBack edges xs
unfolding in_edges
NoneBack-of_Ordered edges seen [] once o = tt
NoneBack-of_Ordered edges seen (x ∷ xs) once o = (
  λ e m.
      let (m', t) = (mem-select (λ (y : Edge). y.target_node_id == x) e edges).0 m in
      let same = (eq_iff e.target_node_id x).0 t in
      let before = waiting_zero edges seen e m' (rw same o.0) in
      ground (
        arith,
        once e.source_node_id,
        count_of_contains e.source_node_id seen before,
        count_of_contains e.source_node_id (x ∷ xs),
      ),
  ground (arith, once x, eq_refl x, count_of_contains x xs),
  NoneBack-of_Ordered edges (seen ++ x ∷ []) xs
      (λ v. omega (arith, once v, count-append v seen (x ∷ []))) o.1,
)

pub is_done-Same :
    (node : Node) (id : String) (r r' : Run) → Same id r r' → is_done node id r' ≡ is_done node id r
is_done-Same node id r r' same = ground (arith, same.skipped, same.active, same.output)

module _ (engines : Engines) (callbacks : Callbacks) (initial_inputs : Dict Value)
    (nodes : Dict Node) (edges : List Edge) where
  -- A node of the order that was not done at `r` is settled at `r'`.
  abbrev pub Settled : String → Run → Run → Type 0
  Settled id r r' =
      (node : Node) × (lookup id nodes ≡ some node)
      × ((is_done node id r ≡ true)
          ⊎ Settles engines callbacks initial_inputs node (in_edges edges id) id r')

  module _ (id : String) (order : List String) (r : Run) where
    abbrev first : Result Error (Unit {0}) × Run
    first = visit_found engines callbacks (lookup id nodes) (in_edges edges id) initial_inputs id r

    abbrev rest : Result Error (Unit {0}) × Run
    rest = run_nodes engines callbacks nodes edges initial_inputs order first.1

    run_nodes-cons :
        (run_nodes engines callbacks nodes edges initial_inputs (id ∷ order) r).0 ≡ ok tt
        → (first.0 ≡ ok tt)
          × (rest.0 ≡ ok tt)
          × (run_nodes engines callbacks nodes edges initial_inputs (id ∷ order) r ≡ rest)
    unfolding run_nodes
    run_nodes-cons h =
        let go = λ (m : Result Error (Unit {0})).
          continue m (λ _. run_nodes engines callbacks nodes edges initial_inputs order) first.1 in
        elim (Result-cases first.0) [
          | inl (done, e) ↦ (e, ap (λ m. (go m).0) (sym e) ∙ h, ap go e)
          | inr (e, f) ↦
              let bad : Result.err e ≡ ok tt = ap (λ m. (go m).0) (sym f) ∙ h in absurd (cc)
        ]

  module _ (id : String) (order : List String) (r : Run) (back : NoneBack edges (id ∷ order))
      (returned : (first id order r).0 ≡ ok tt) where
    abbrev final : Run
    final = (rest id order r).1

    Settled-first :
        (node : Node)
        → lookup id nodes ≡ some node
        → is_done node id r ≡ false
        → Settles engines callbacks initial_inputs node (in_edges edges id) id final
    Settled-first node found fresh =
        let e =
          ap
            (λ (o : Option Node).
              visit_found engines callbacks o (in_edges edges id) initial_inputs id r)
            found in
        let settles =
          visit-Settles engines callbacks initial_inputs node (in_edges edges id) id r
            (λ x m. ground (arith, back.0 x m)) fresh
            (ap (λ (y : Result Error (Unit {0}) × Run). y.0) (sym e) ∙ returned) in
        Settles-Same engines callbacks initial_inputs node (in_edges edges id) id
          (first id order r).1 final
          (λ x m.
            (run_nodes-Frames engines callbacks x.source_node_id nodes edges initial_inputs order
                (ground (arith, back.0 x m))).at
              _)
          ((run_nodes-Frames engines callbacks id nodes edges initial_inputs order back.1).at _)
          (rw e settles)

    Settled-id : Settled id r final
    Settled-id = elim (Option-cases (lookup id nodes)) [
      | inl missing ↦
          let e =
            ap
              (λ (o : Option Node).
                visit_found engines callbacks o (in_edges edges id) initial_inputs id r)
              missing in
          let bad = ap (λ (y : Result Error (Unit {0}) × Run). y.0) (sym e) ∙ returned in
          absurd (cc)
      | inr (node, found) ↦ (
        node,
        found,
        elim (Bool-cases (is_done node id r)) [
          | inl done ↦ inl done
          | inr fresh ↦ inr (Settled-first node found fresh)
        ],
      )
    ]

  pub run_nodes-Settled :
      (order : List String) (r : Run)
      → NoneBack edges order
      → (run_nodes engines callbacks nodes edges initial_inputs order r).0 ≡ ok tt
      → (id : String) → contains id order ≡ true
      → Settled id r (run_nodes engines callbacks nodes edges initial_inputs order r).1
  run_nodes-Settled [] r back h id m = absurd (cc)
  run_nodes-Settled (x ∷ order) r back h id m =
      let (returned, ended, e) = run_nodes-cons x order r h in
      rw e (elim (Bool-cases (x == id)) [
        | inl same ↦ rw (sym ((eq_iff x id).0 same)) (Settled-id x order r back returned)
        | inr other ↦
            let (node, found, outcome) =
              run_nodes-Settled order (first x order r).1 back.2 ended id (ground arith) in
            (
              node,
              found,
              elim outcome [
                | inl done ↦ inl (
                    sym (
                      is_done-Same node id r (first x order r).1 (
                        (visit_found-Frames engines callbacks id x other (lookup x nodes)
                            (in_edges edges x) initial_inputs).at
                          r))
                    ∙ done)
                | inr s ↦ inr s
              ],
            )
      ])
