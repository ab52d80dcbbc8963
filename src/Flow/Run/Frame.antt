-- ===== src/Flow/Run/Frame.antt =====
-- A visit changes what is known of its own node, and of no other.
use python_flow_hub.Prelude.{
  String, ◌≡◌, refl, ◌∙◌, false, Option, some, none, List, [], ◌∷◌, Dict, lookup, lookup-insert,
  contains, ◌==◌, Result, ok, err, arith, Bool-cases, inl, inr,
}
use python_flow_hub.Value.{Value}
use python_flow_hub.Runtime.Errors.{Error}
use python_flow_hub.Runtime.Engines.{Engines}
use python_flow_hub.Flow.Graph.{Edge, Node}
use python_flow_hub.Flow.Branch.{is_type}
use python_flow_hub.Flow.Inputs.{gather_inputs, in_edges}
use python_flow_hub.Flow.Run.{
  Run, Callbacks, Exec, continue, ◌>>=◌, lift, notify, set_output, set_port, skip, prune,
  visit_input, visit_branch, call_executor, visit_block, dispatch, visit, visit_found, run_nodes,
}

-- Two states hold the same of node `j`.
pub record Same (j : String) (r r' : Run) : Type 0 where
  pub skipped : contains j r'.skipped ≡ contains j r.skipped
  pub active : lookup j r'.active_ports ≡ lookup j r.active_ports
  pub output : lookup j r'.outputs ≡ lookup j r.outputs

pub Same-refl : (j : String) (r : Run) → Same j r r
Same-refl j r = record { skipped = refl; active = refl; output = refl }

pub Same-trans : {j : String} {r s t : Run} → Same j r s → Same j s t → Same j r t
Same-trans a b = record {
  skipped = b.skipped ∙ a.skipped;
  active = b.active ∙ a.active;
  output = b.output ∙ a.output;
}

-- A step leaves node `j` alone, whether it returns or raises.
pub record Frames {A : Type 0} (j : String) (m : Exec A) : Type 0 where
  pub at : (r : Run) → Same j r (m r).1

Frames-lift : {A : Type 0} (j : String) (m : Result Error A) → Frames j (lift m)
Frames-lift j m = record { at = λ r. Same-refl j r }

continue-Same :
    {A B : Type 0} (j : String) (x : Result Error A) (f : A → Exec B) (r : Run)
    → ((a : A) → Frames j (f a))
    → Same j r (continue x f r).1
continue-Same j (ok a) f r k = (k a).at r
continue-Same j (err e) f r k = Same-refl j r

Frames-bind :
    {A B : Type 0} {j : String} (m : Exec A) (f : A → Exec B)
    → Frames j m
    → ((a : A) → Frames j (f a))
    → Frames j (m >>= f)
Frames-bind {j} m f h k = record {
  at = λ r. Same-trans (h.at r) (continue-Same j (m r).0 f (m r).1 k);
}

module _ (j id : String) (other : (id == j) ≡ false) where
  Frames-skip : Frames j (skip id)
  Frames-skip = record { at = λ r. ground (arith, other) }

  Frames-set_output : (v : Value) → Frames j (set_output id v)
  Frames-set_output v = record { at = λ r. ground (arith, other, lookup-insert id j v r.outputs) }

  Frames-set_port : (p : String) → Frames j (set_port id p)
  Frames-set_port p = record {
    at = λ r. ground (arith, other, lookup-insert id j p r.active_ports);
  }

module _ (callbacks : Callbacks) where
  Frames-notify : (j id status : String) (v : Value) → Frames j (notify callbacks id status v)
  unfolding notify
  Frames-notify j id status v = record { at = λ r. ground arith }

  Frames-call :
      (j id : String) (node : Node) (d : Dict Value) → Frames j (call_executor callbacks node id d)
  Frames-call j id node d = record { at = λ r. ground arith }

ruleset frame_rules = (
  Frames-lift, Frames-bind, Frames-skip, Frames-set_output, Frames-set_port, Frames-notify,
  Frames-call,
)

module _ (engines : Engines) (callbacks : Callbacks) where
  module _ (j id : String) (other : (id == j) ≡ false) (node : Node) (d : Dict Value) where
    prune-Frames : Frames j (prune callbacks id)
    unfolding prune
    prune-Frames = search frame_rules

    visit_input-Frames : Frames j (visit_input callbacks node id)
    unfolding visit_input
    visit_input-Frames = search frame_rules

    visit_branch-Frames : Frames j (visit_branch engines callbacks node id d)
    unfolding visit_branch
    visit_branch-Frames = search frame_rules depth 8

    visit_block-Frames : Frames j (visit_block callbacks node id d)
    unfolding visit_block
    visit_block-Frames = search frame_rules

    dispatch-Frames : Frames j (dispatch engines callbacks node id d)
    unfolding dispatch
    dispatch-Frames = elim (Bool-cases (is_type node "note")) [
      | inl note ↦ rw note (Frames-skip j id other)
      | inr not_note ↦ rw not_note (elim (Bool-cases (is_type node "input")) [
        | inl input ↦ rw input visit_input-Frames
        | inr not_input ↦ rw not_input (elim (Bool-cases (is_type node "condition_branch")) [
          | inl branch ↦ rw branch visit_branch-Frames
          | inr block ↦ rw block visit_block-Frames
        ])
      ])
    ]

  module _ (j id : String) (other : (id == j) ≡ false) where
    pub visit-Frames :
        (node : Node) (incoming : List Edge) (initial_inputs : Dict Value)
        → Frames j (visit engines callbacks node incoming initial_inputs id)
    unfolding visit
    visit-Frames node incoming initial_inputs = record {
      at = λ r. ground (
        arith,
        (prune-Frames j id other node initial_inputs).at r,
        (dispatch-Frames j id other node (gather_inputs incoming r.outputs initial_inputs)).at r,
        Same-refl j r,
      );
    }

    pub visit_found-Frames :
        (node : Option Node) (incoming : List Edge) (initial_inputs : Dict Value)
        → Frames j (visit_found engines callbacks node incoming initial_inputs id)
    visit_found-Frames none incoming initial_inputs = record { at = λ r. Same-refl j r }
    visit_found-Frames (some node) incoming initial_inputs =
        visit-Frames node incoming initial_inputs

  -- A run over an order leaves alone what is not in it.
  pub run_nodes-Frames :
      (j : String) (nodes : Dict Node) (edges : List Edge) (initial_inputs : Dict Value)
      (order : List String)
      → contains j order ≡ false
      → Frames j (run_nodes engines callbacks nodes edges initial_inputs order)
  unfolding run_nodes
  run_nodes-Frames j nodes edges initial_inputs [] out = record { at = λ r. Same-refl j r }
  run_nodes-Frames j nodes edges initial_inputs (id ∷ order) out =
      Frames-bind
        (visit_found engines callbacks (lookup id nodes) (in_edges edges id) initial_inputs id)
        (λ _. run_nodes engines callbacks nodes edges initial_inputs order)
        (visit_found-Frames j id (ground arith) (lookup id nodes) (in_edges edges id)
          initial_inputs)
        (λ _. run_nodes-Frames j nodes edges initial_inputs order (ground arith))
