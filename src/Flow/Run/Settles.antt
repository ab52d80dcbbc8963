-- ===== src/Flow/Run/Settles.antt =====
-- What a visit leaves of its node, said of the variables after it.
use mathlib.Core.List.{Memᴰ}
use python_flow_hub.Prelude.{
  String, ◌≡◌, refl, ◌∙◌, ap, Bool, true, false, not, ◌&&◌, some, List, [], ◌∷◌, Dict, lookup,
  lookup-insert, contains, eq_refl, ok, arith, inl, inr, Result-cases,
}
use python_flow_hub.Value.{Value, dict, fields, update}
use python_flow_hub.Runtime.Engines.{Engines}
use python_flow_hub.Flow.Graph.{Edge, Node}
use python_flow_hub.Flow.Branch.{is_type, resolve_branch}
use python_flow_hub.Flow.Inputs.{
  input_payload, merge, outputs_of, or_else, gather_inputs, all_inactive, is_empty,
}
use python_flow_hub.Flow.Run.{
  Event, Run, Callbacks, notify, prune, visit_input, visit_branch, visit_block,
}
use python_flow_hub.Flow.Run.Frame.{Same}

-- `incoming and _all_inactive(incoming, ...)`
abbrev pub is_pruned : List Edge → Run → Bool
is_pruned incoming r = not (is_empty incoming) && all_inactive incoming r.active_ports r.skipped

-- Two states agree on the sources of some edges.
abbrev pub SameSources : List Edge → Run → Run → Type 0
SameSources es r r' = (e : Edge) → Memᴰ e es → Same e.source_node_id r r'

merge-Same :
    (es : List Edge) (r r' : Run) (merged : Dict Value)
    → SameSources es r r'
    → merge es r'.outputs merged ≡ merge es r.outputs merged
unfolding merge
merge-Same [] r r' merged same = refl
merge-Same (e ∷ es) r r' merged same = rw ((same e (Memᴰ.head refl)).output) (
    merge-Same es r r' (update merged (outputs_of (lookup e.source_node_id r.outputs)))
      (λ x m. same x (Memᴰ.tail m)))

pub gather-Same :
    (es : List Edge) (r r' : Run) (initial_inputs : Dict Value)
    → SameSources es r r'
    → gather_inputs es r'.outputs initial_inputs ≡ gather_inputs es r.outputs initial_inputs
unfolding gather_inputs
gather-Same [] r r' initial_inputs same = refl
gather-Same (e ∷ es) r r' initial_inputs same =
    ap (λ (d : Dict Value). or_else d initial_inputs) (merge-Same (e ∷ es) r r' [] same)

pub all_inactive-Same :
    (es : List Edge) (r r' : Run)
    → SameSources es r r'
    → all_inactive es r'.active_ports r'.skipped ≡ all_inactive es r.active_ports r.skipped
unfolding all_inactive
all_inactive-Same [] r r' same = refl
all_inactive-Same (e ∷ es) r r' same =
    let here = same e (Memᴰ.head refl) in
    ground
      (arith, here.skipped, here.active, all_inactive-Same es r r' (λ x m. same x (Memᴰ.tail m)))

module _ (engines : Engines) (callbacks : Callbacks) (initial_inputs : Dict Value) where
  -- The meaning of a settled node, by the final values of the variables alone.
  pub data Settles (node : Node) (incoming : List Edge) (id : String) (r : Run) : Type 0 where
    -- All edges into the node are inactive: it is skipped.
    pruned : is_pruned incoming r ≡ true → contains id r.skipped ≡ true → Settles node incoming id r
    -- A note is skipped.
    noted :
        is_pruned incoming r ≡ false
        → is_type node "note" ≡ true
        → contains id r.skipped ≡ true
        → Settles node incoming id r
    -- An input node gives its payload.
    fed :
        is_pruned incoming r ≡ false
        → is_type node "note" ≡ false
        → is_type node "input" ≡ true
        → contains id r.skipped ≡ false
        → lookup id r.outputs ≡ some (dict (fields (input_payload node.config)))
        → Settles node incoming id r
    -- A branch node chose a port by its inputs, which it passes on.
    branched :
        (port : String)
        → is_pruned incoming r ≡ false
        → is_type node "note" ≡ false
        → is_type node "input" ≡ false
        → is_type node "condition_branch" ≡ true
        → contains id r.skipped ≡ false
        → resolve_branch engines node.config (gather_inputs incoming r.outputs initial_inputs)
          ≡ ok port
        → lookup id r.active_ports ≡ some port
        → lookup id r.outputs
          ≡ some (dict (fields (gather_inputs incoming r.outputs initial_inputs)))
        → Settles node incoming id r
    -- A node of any other kind was executed on the outputs of its sources.
    ran :
        (before : List Event) (output : Value)
        → is_pruned incoming r ≡ false
        → is_type node "note" ≡ false
        → is_type node "input" ≡ false
        → is_type node "condition_branch" ≡ false
        → contains id r.skipped ≡ false
        → callbacks.node_executor before node (gather_inputs incoming r.outputs initial_inputs)
          ≡ ok output
        → lookup id r.outputs ≡ some output
        → Settles node incoming id r

  -- It stays so while the variables keep what they hold of the node and its sources.
  pub Settles-Same :
      (node : Node) (incoming : List Edge) (id : String) (r r' : Run)
      → SameSources incoming r r'
      → Same id r r'
      → Settles node incoming id r
      → Settles node incoming id r'
  Settles-Same node incoming id r r' sources same (pruned p s) =
      pruned (ground (arith, all_inactive-Same incoming r r' sources)) (same.skipped ∙ s)
  Settles-Same node incoming id r r' sources same (noted p t s) =
      noted (ground (arith, all_inactive-Same incoming r r' sources)) t (same.skipped ∙ s)
  Settles-Same node incoming id r r' sources same (fed p n t s o) =
      fed (ground (arith, all_inactive-Same incoming r r' sources)) n t (same.skipped ∙ s)
        (same.output ∙ o)
  Settles-Same node incoming id r r' sources same (branched port p n i t s c a o) =
      let inputs = gather-Same incoming r r' initial_inputs sources in
      branched port (ground (arith, all_inactive-Same incoming r r' sources)) n i t
        (same.skipped ∙ s) (rw inputs c) (same.active ∙ a) (rw inputs (same.output ∙ o))
  Settles-Same node incoming id r r' sources same (ran before output p n i b s c o) =
      let inputs = gather-Same incoming r r' initial_inputs sources in
      ran before output (ground (arith, all_inactive-Same incoming r r' sources)) n i b
        (same.skipped ∙ s) (rw inputs c) (same.output ∙ o)

  module _ (node : Node) (id : String) (r : Run) where
    pub prune-skipped : contains id (prune callbacks id r).1.skipped ≡ true
    unfolding prune
    prune-skipped = ground (arith, eq_refl id)

    pub visit_input-output :
        (contains id (visit_input callbacks node id r).1.skipped ≡ contains id r.skipped)
        × (lookup id (visit_input callbacks node id r).1.outputs
            ≡ some (dict (fields (input_payload node.config))))
    unfolding visit_input
    visit_input-output = ground (
      arith,
      eq_refl id,
      lookup-insert id id (dict (fields (input_payload node.config))) r.outputs,
    )

    module _ (d : Dict Value) where
      pub visit_branch-port :
          (visit_branch engines callbacks node id d r).0 ≡ ok tt
          → (port : String) × (resolve_branch engines node.config d ≡ ok port)
            × (contains id (visit_branch engines callbacks node id d r).1.skipped
                ≡ contains id r.skipped)
            × (lookup id (visit_branch engines callbacks node id d r).1.active_ports ≡ some port)
            × (lookup id (visit_branch engines callbacks node id d r).1.outputs
                ≡ some (dict (fields d)))
      unfolding visit_branch
      visit_branch-port h = elim (Result-cases (resolve_branch engines node.config d)) [
        | inl (port, e) ↦ (
          port,
          e,
          ground arith,
          ground (arith, eq_refl id, lookup-insert id id port r.active_ports),
          ground (arith, eq_refl id, lookup-insert id id (dict (fields d)) r.outputs),
        )
        | inr (e, f) ↦ absurd (ground arith)
      ]

      abbrev pub announced : Run
      announced = (notify callbacks id "running" (dict (fields [])) r).1

      pub visit_block-output :
          (visit_block callbacks node id d r).0 ≡ ok tt
          → (output : Value) × (callbacks.node_executor announced.trace node d ≡ ok output)
            × (contains id (visit_block callbacks node id d r).1.skipped ≡ contains id r.skipped)
            × (lookup id (visit_block callbacks node id d r).1.outputs ≡ some output)
      unfolding visit_block
      visit_block-output h = elim (Result-cases (callbacks.node_executor announced.trace node d)) [
        | inl (output, e) ↦ (
          output,
          e,
          ground arith,
          ground (arith, eq_refl id, lookup-insert id id output r.outputs),
        )
        | inr (e, f) ↦ absurd (ground arith)
      ]
