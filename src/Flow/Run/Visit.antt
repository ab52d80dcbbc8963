-- ===== src/Flow/Run/Visit.antt =====
-- A visit that returns settles its node.
use mathlib.Core.List.{Memᴰ}
use python_flow_hub.Prelude.{
  String, ◌≡◌, sym, ◌∙◌, ap, true, false, not, ◌&&◌, List, Dict, lookup, contains, ◌==◌, eq_refl,
  Result, ok, arith, Bool-cases, inl, inr,
}
use python_flow_hub.Value.{Value}
use python_flow_hub.Runtime.Errors.{Error}
use python_flow_hub.Runtime.Engines.{Engines}
use python_flow_hub.Flow.Graph.{Edge, Node}
use python_flow_hub.Flow.Branch.{is_type}
use python_flow_hub.Flow.Inputs.{gather_inputs, is_empty}
use python_flow_hub.Flow.Run.{
  Run, Callbacks, skip, prune, visit_input, visit_branch, visit_block, dispatch, is_done, visit,
}
use python_flow_hub.Flow.Run.Frame.{visit-Frames}
use python_flow_hub.Flow.Run.Settles.{
  is_pruned, SameSources, gather-Same, all_inactive-Same, Settles, pruned, noted, fed, branched,
  ran, prune-skipped, announced, visit_input-output, visit_branch-port, visit_block-output,
}

module _ (engines : Engines) (callbacks : Callbacks) (initial_inputs : Dict Value) (node : Node)
    (incoming : List Edge) (id : String) (r : Run)
    (apart : (e : Edge) → Memᴰ e incoming → (id == e.source_node_id) ≡ false) where
  abbrev after : Run
  after = (visit engines callbacks node incoming initial_inputs id r).1

  abbrev inputs : Dict Value
  inputs = gather_inputs incoming r.outputs initial_inputs

  sources : SameSources incoming r after
  sources e m =
      (visit-Frames engines callbacks e.source_node_id id (apart e m) node incoming
          initial_inputs).at
        r

  pruned_after : is_pruned incoming after ≡ is_pruned incoming r
  pruned_after = ap (λ b. not (is_empty incoming) && b) (all_inactive-Same incoming r after sources)

  inputs_after : gather_inputs incoming after.outputs initial_inputs ≡ inputs
  inputs_after = gather-Same incoming r after initial_inputs sources

  skipped_as :
      (x : Result Error (Unit {0}) × Run)
      → visit engines callbacks node incoming initial_inputs id r ≡ x
      → contains id after.skipped ≡ contains id x.1.skipped
  skipped_as x e = ap (λ (y : Result Error (Unit {0}) × Run). contains id y.1.skipped) e

  output_as :
      (x : Result Error (Unit {0}) × Run)
      → visit engines callbacks node incoming initial_inputs id r ≡ x
      → lookup id after.outputs ≡ lookup id x.1.outputs
  output_as x e = ap (λ (y : Result Error (Unit {0}) × Run). lookup id y.1.outputs) e

  active_as :
      (x : Result Error (Unit {0}) × Run)
      → visit engines callbacks node incoming initial_inputs id r ≡ x
      → lookup id after.active_ports ≡ lookup id x.1.active_ports
  active_as x e = ap (λ (y : Result Error (Unit {0}) × Run). lookup id y.1.active_ports) e

  returned_as :
      (x : Result Error (Unit {0}) × Run)
      → visit engines callbacks node incoming initial_inputs id r ≡ x
      → (visit engines callbacks node incoming initial_inputs id r).0 ≡ ok tt
      → x.0 ≡ ok tt
  returned_as x e h = ap (λ (y : Result Error (Unit {0}) × Run). y.0) (sym e) ∙ h

  module _ (fresh : is_done node id r ≡ false) where
    visit_pruned :
        is_pruned incoming r ≡ true
        → visit engines callbacks node incoming initial_inputs id r ≡ prune callbacks id r
    unfolding visit
    visit_pruned p = rw (fresh, p)

    visit_dispatched :
        is_pruned incoming r ≡ false
        → visit engines callbacks node incoming initial_inputs id r
          ≡ dispatch engines callbacks node id inputs r
    unfolding visit
    visit_dispatched p = rw (fresh, p)

    not_skipped : contains id r.skipped ≡ false
    not_skipped = ground arith

    module _ (live : is_pruned incoming r ≡ false) where
      live_after : is_pruned incoming after ≡ false
      live_after = pruned_after ∙ live

      module _ (note : is_type node "note" ≡ true) where
        as_note : visit engines callbacks node incoming initial_inputs id r ≡ skip id r
        unfolding dispatch
        as_note = visit_dispatched live ∙ rw note

        Settles-note : Settles engines callbacks initial_inputs node incoming id after
        Settles-note = noted live_after note (skipped_as _ as_note ∙ ground (arith, eq_refl id))

      module _ (not_note : is_type node "note" ≡ false) (input : is_type node "input" ≡ true) where
        as_input :
            visit engines callbacks node incoming initial_inputs id r
            ≡ visit_input callbacks node id r
        unfolding dispatch
        as_input = visit_dispatched live ∙ rw (not_note, input)

        Settles-input : Settles engines callbacks initial_inputs node incoming id after
        Settles-input =
            let (kept, output) = visit_input-output engines callbacks initial_inputs node id r in
            fed live_after not_note input (skipped_as _ as_input ∙ kept ∙ not_skipped)
              (output_as _ as_input ∙ output)

      module _ (not_note : is_type node "note" ≡ false) (not_input : is_type node "input" ≡ false)
          (returned : (visit engines callbacks node incoming initial_inputs id r).0 ≡ ok tt) where
        as_branch :
            is_type node "condition_branch" ≡ true
            → visit engines callbacks node incoming initial_inputs id r
              ≡ visit_branch engines callbacks node id inputs r
        unfolding dispatch
        as_branch branch = visit_dispatched live ∙ rw (not_note, not_input, branch)

        Settles-branch :
            is_type node "condition_branch" ≡ true
            → Settles engines callbacks initial_inputs node incoming id after
        Settles-branch branch =
            let e = as_branch branch in
            let (port, chosen, kept, active, output) =
              visit_branch-port engines callbacks initial_inputs node id r inputs
                (returned_as _ e returned) in
            branched port live_after not_note not_input branch (skipped_as _ e ∙ kept ∙ not_skipped)
              (rw inputs_after chosen) (active_as _ e ∙ active)
              (rw inputs_after (output_as _ e ∙ output))

        as_block :
            is_type node "condition_branch" ≡ false
            → visit engines callbacks node incoming initial_inputs id r
              ≡ visit_block callbacks node id inputs r
        unfolding dispatch
        as_block block = visit_dispatched live ∙ rw (not_note, not_input, block)

        Settles-block :
            is_type node "condition_branch" ≡ false
            → Settles engines callbacks initial_inputs node incoming id after
        Settles-block block =
            let e = as_block block in
            let (output, answered, kept, stored) =
              visit_block-output engines callbacks initial_inputs node id r inputs
                (returned_as _ e returned) in
            ran (announced engines callbacks initial_inputs node id r inputs).trace output
              live_after not_note not_input block (skipped_as _ e ∙ kept ∙ not_skipped)
              (rw inputs_after answered) (output_as _ e ∙ stored)

    Settles-pruned :
        is_pruned incoming r ≡ true
        → Settles engines callbacks initial_inputs node incoming id after
    Settles-pruned p =
        pruned (pruned_after ∙ p)
          (skipped_as _ (visit_pruned p) ∙ prune-skipped engines callbacks initial_inputs node id r)

    pub visit-Settles :
        (visit engines callbacks node incoming initial_inputs id r).0 ≡ ok tt
        → Settles engines callbacks initial_inputs node incoming id after
    visit-Settles h = elim (Bool-cases (is_pruned incoming r)) [
      | inl p ↦ Settles-pruned p
      | inr live ↦ elim (Bool-cases (is_type node "note")) [
        | inl note ↦ Settles-note live note
        | inr not_note ↦ elim (Bool-cases (is_type node "input")) [
          | inl input ↦ Settles-input live not_note input
          | inr not_input ↦ elim (Bool-cases (is_type node "condition_branch")) [
            | inl branch ↦ Settles-branch live not_note not_input h branch
            | inr block ↦ Settles-block live not_note not_input h block
          ]
        ]
      ]
    ]
