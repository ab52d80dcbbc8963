-- ===== src/Flow/Run/Once.antt =====
-- How often a run calls the executor for a node.
use python_flow_hub.Prelude.{
  ℕ, ◌+◌, ◌≤◌, String, ◌≡◌, refl, ◌∙◌, true, Option, some, none, List, [], ◌∷◌, ◌++◌, Dict, lookup,
  count, if◌then◌else◌, ◌==◌, eq_iff, Result, ok, err, arith, Bool-cases, inl, inr, Result-cases,
}
use python_flow_hub.Value.{Value, text, dict, fields}
use python_flow_hub.Runtime.Errors.{Error}
use python_flow_hub.Runtime.Engines.{Engines}
use python_flow_hub.Flow.Graph.{Edge, Node}
use python_flow_hub.Flow.Branch.{resolve_branch}
use python_flow_hub.Flow.Inputs.{input_payload, in_edges, gather_inputs}
use python_flow_hub.Flow.Run.{
  Exec, lift, skip, set_output, set_port, call_executor, ◌>>=◌, Event, checkpoint, executed, Run,
  Callbacks, continue, notify, prune, visit_input, visit_branch, visit_block, dispatch, is_done,
  visit, visit_found, run_nodes,
}
use python_flow_hub.Flow.Run.Frame.{visit_found-Frames}
use python_flow_hub.Flow.Run.Loop.{is_done-Same}

-- The calls of the executor for node `j`.
unfoldable pub runs : String → List Event → ℕ
runs j [] = 0
runs j (checkpoint id status v ∷ t) = runs j t
runs j (executed id inputs ∷ t) = (if id == j then 1 else 0) + runs j t

runs-append : (j : String) (s t : List Event) → runs j (s ++ t) ≡ runs j s + runs j t
unfolding runs
runs-append j [] t = omega arith
runs-append j (checkpoint id status v ∷ s) t = runs-append j s t
runs-append j (executed id inputs ∷ s) t = omega (arith, runs-append j s t)

abbrev calls : String → String → ℕ
calls j id = if id == j then 1 else 0

-- A step calls the executor for node `j` at most `k` times, whether it returns or raises.
pub record Adds {A : Type 0} (j : String) (k : ℕ) (m : Exec A) : Type 0 where
  pub at : (r : Run) → runs j (m r).1.trace ≤ runs j r.trace + k

runs-continue :
    {A B : Type 0} (j : String) (k : ℕ) (x : Result Error A) (f : A → Exec B) (r : Run)
    → ((a : A) → Adds j k (f a))
    → runs j (continue x f r).1.trace ≤ runs j r.trace + k
runs-continue j k (ok a) f r h = (h a).at r
runs-continue j k (err e) f r h = omega arith

Adds-bind :
    {A B : Type 0} {j : String} (k l : ℕ) (m : Exec A) (f : A → Exec B)
    → Adds j k m
    → ((a : A) → Adds j l (f a))
    → Adds j (k + l) (m >>= f)
Adds-bind {j} k l m f h g = record {
  at = λ r. omega (arith, h.at r, runs-continue j l (m r).0 f (m r).1 g);
}

-- A step that leaves the trace alone.
Adds-quiet :
    {A : Type 0} (j : String) (m : Exec A) → ((r : Run) → (m r).1.trace ≡ r.trace) → Adds j 0 m
Adds-quiet j m h = record { at = λ r. rw (h r) (omega arith) }

module _ (engines : Engines) (callbacks : Callbacks) (j : String) where
  Adds-notify : (id status : String) (v : Value) → Adds j 0 (notify callbacks id status v)
  unfolding notify runs
  Adds-notify id status v = record {
    at = λ r. ground (arith, runs-append j r.trace (checkpoint id status v ∷ []));
  }

  Adds-call :
      (node : Node) (id : String) (d : Dict Value)
      → Adds j (calls j id) (call_executor callbacks node id d)
  unfolding runs
  Adds-call node id d = record {
    at = λ r. omega (arith, runs-append j r.trace (executed id d ∷ []));
  }

  prune-Adds : (id : String) → Adds j 0 (prune callbacks id)
  unfolding prune
  prune-Adds id =
      Adds-bind 0 0 _ _ (Adds-quiet j (skip id) (λ r. refl))
        (λ _. Adds-notify id "skipped" (dict (fields [])))

  visit_input-Adds : (node : Node) (id : String) → Adds j 0 (visit_input callbacks node id)
  unfolding visit_input
  visit_input-Adds node id =
      let payload = dict (fields (input_payload node.config)) in
      Adds-bind 0 0 _ _ (Adds-quiet j (set_output id payload) (λ r. refl))
        (λ _. Adds-notify id "done" payload)

  visit_branch-Adds :
      (node : Node) (id : String) (d : Dict Value)
      → Adds j 0 (visit_branch engines callbacks node id d)
  unfolding visit_branch
  visit_branch-Adds node id d =
      Adds-bind 0 0 _ _ (Adds-quiet j (lift (resolve_branch engines node.config d)) (λ r. refl))
        λ port. Adds-bind 0 0 _ _ (Adds-quiet j (set_port id port) (λ r. refl)) λ _.
          Adds-bind 0 0 _ _ (Adds-quiet j (set_output id (dict (fields d))) (λ r. refl))
            λ _. Adds-notify id "done" (dict (fields (("hit_port", text port) ∷ [])))

  visit_block-Adds :
      (node : Node) (id : String) (d : Dict Value)
      → Adds j (0 + (calls j id + 0)) (visit_block callbacks node id d)
  unfolding visit_block
  visit_block-Adds node id d =
      Adds-bind 0 (calls j id + 0) _ _ (Adds-notify id "running" (dict (fields []))) λ _.
        Adds-bind (calls j id) 0 _ _ (Adds-call node id d) λ output.
          Adds-bind 0 0 _ _ (Adds-quiet j (set_output id output) (λ r. refl))
            (λ _. Adds-notify id "done" output)

  runs-dispatch :
      (node : Node) (id : String) (d : Dict Value) (r : Run)
      → runs j (dispatch engines callbacks node id d r).1.trace ≤ runs j r.trace + calls j id
  unfolding dispatch
  runs-dispatch node id d r = ground (
    arith,
    (visit_input-Adds node id).at r,
    (visit_branch-Adds node id d).at r,
    (visit_block-Adds node id d).at r,
  )

  -- A visit calls the executor at most once, for its own node, and not for a node that is done.
  runs-visit_found :
      (node : Option Node) (incoming : List Edge) (initial_inputs : Dict Value) (id : String)
      (r : Run)
      → runs j (visit_found engines callbacks node incoming initial_inputs id r).1.trace
        ≤ runs j r.trace + calls j id
  unfolding visit
  runs-visit_found none incoming initial_inputs id r = omega arith
  runs-visit_found (some node) incoming initial_inputs id r = ground (
    arith,
    (prune-Adds id).at r,
    runs-dispatch node id (gather_inputs incoming r.outputs initial_inputs) r,
  )

  visit_found_done :
      (node : Node) (incoming : List Edge) (initial_inputs : Dict Value) (id : String) (r : Run)
      → is_done node id r ≡ true
      → visit_found engines callbacks (some node) incoming initial_inputs id r ≡ (ok tt, r)
  unfolding visit
  visit_found_done node incoming initial_inputs id r done = rw done

  module _ (initial_inputs : Dict Value) (nodes : Dict Node) (edges : List Edge) where
    pub runs-run_nodes :
        (order : List String) (r : Run)
        → runs j (run_nodes engines callbacks nodes edges initial_inputs order r).1.trace
          ≤ runs j r.trace + count j order
    unfolding run_nodes
    runs-run_nodes [] r = omega arith
    runs-run_nodes (id ∷ order) r =
        let first =
          visit_found engines callbacks (lookup id nodes) (in_edges edges id) initial_inputs id in
        omega (
          arith,
          runs-visit_found (lookup id nodes) (in_edges edges id) initial_inputs id r,
          runs-continue j (count j order) (first r).0
              (λ _. run_nodes engines callbacks nodes edges initial_inputs order) (first r).1
              (λ _. record { at = runs-run_nodes order }),
        )

    abbrev WasDone : Run → Type 0
    WasDone r = (node : Node) × (lookup j nodes ≡ some node) × (is_done node j r ≡ true)

    visit_found_other :
        (id : String) (r : Run)
        → WasDone r
        → (runs j
              (visit_found engines callbacks
                (lookup id nodes)
                (in_edges edges id)
                initial_inputs
                id
                r).1.trace
            ≤ runs j r.trace)
          × WasDone
              (visit_found engines callbacks
                (lookup id nodes)
                (in_edges edges id)
                initial_inputs
                id
                r).1
    visit_found_other id r (node, found, done) = elim (Bool-cases (id == j)) [
      | inl same ↦
          rw
            (
              (eq_iff id j).0 same,
              found,
              visit_found_done node (in_edges edges j) initial_inputs j r done,
            )
            (omega arith, (node, refl, done))
      | inr other ↦ (
        ground (arith, runs-visit_found (lookup id nodes) (in_edges edges id) initial_inputs id r),
        (
          node,
          found,
          is_done-Same node j r _ (
                (visit_found-Frames engines callbacks j id other (lookup id nodes)
                    (in_edges edges id) initial_inputs).at
                  r)
              ∙ done,
        ),
      )
    ]

    pub run_nodes_done :
        (order : List String) (r : Run)
        → WasDone r
        → runs j (run_nodes engines callbacks nodes edges initial_inputs order r).1.trace
          ≤ runs j r.trace
    unfolding run_nodes
    run_nodes_done [] r done = omega arith
    run_nodes_done (id ∷ order) r done =
        let first =
          visit_found engines callbacks (lookup id nodes) (in_edges edges id) initial_inputs id in
        let (quiet, done') = visit_found_other id r done in
        elim (Result-cases (first r).0) [
          | inl (a, e) ↦ rw e (omega (arith, quiet, run_nodes_done order (first r).1 done'))
          | inr (a, e) ↦ rw e quiet
        ]
