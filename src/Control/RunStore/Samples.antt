-- ===== src/Control/RunStore/Samples.antt =====
-- A flow run of two replicas, and one that is resumed.
use python_flow_hub.Prelude.{
  ℕ, ◌<◌, String, ◌≡◌, refl, false, none, some, List, [], ◌∷◌, insert, lookup,
}
use python_flow_hub.Value.{text, dict, fields}
use python_flow_hub.Control.RunStore.{
  FlowRun, Row, update_where, take, claim_run, renew_lease, release_lease, may_claim,
  scan_resumable, running, expired, completed_nodes,
}
use python_flow_hub.Control.RunStore.Fencing.{Steps, IsFree, claim_run-fences}
use python_flow_hub.Control.Resume.{
  Saving, save_all, restore, no_prior, active_ports-restore, save, entry_of,
}

abbrev new_run : FlowRun
new_run = record {
  status = "running";
  node_states = [];
  owner_pod = "";
  fence_token = 0;
  lease_expire_at = none;
}

abbrev quiet : Row → Row
quiet r = r

program : Unit {0}
unfolding update_where take claim_run renew_lease release_lease may_claim running expired
    scan_resumable completed_nodes entry_of save save_all lookup insert
program = tt

abbrev by_a : Row
by_a = (claim_run quiet "a" 0 30 (some new_run)).1

first : (claim_run quiet "a" 0 30 (some new_run)).0 ≡ some 1
unfolding program
first = refl

-- The lease of replica "a" has run out.
second : (claim_run quiet "b" 50 30 by_a).0 ≡ some 2
unfolding program
second = refl

claim_run-fences_example :
    (1 < 2)
    × ((p : String) (n l : ℕ)
        → let r' = (claim_run quiet "b" 50 30 by_a).1 in
          (renew_lease p 1 n l r' ≡ (false, r')) × (release_lease p 1 n r' ≡ r'))
    × ((run : FlowRun) × (by_a ≡ some run) × (run.status ≡ "running") × IsFree "b" 50 run)
claim_run-fences_example =
    claim_run-fences quiet quiet "a" "b" 0 50 30 30 1 2 (some new_run) by_a first Steps.stay second

abbrev saved_port : List Saving
saved_port =
    record {
      node_id = "split";
      status = "done";
      output = dict (fields (("hit_port", text "hi") ∷ []));
    }
    ∷ []

active_ports-restore_example : (restore (save_all saved_port []) no_prior).active_ports ≡ []
active_ports-restore_example = active_ports-restore saved_port

-- The branch counts as completed all the same.
completed_lem : completed_nodes (save_all saved_port []) ≡ "split" ∷ []
unfolding program
completed_lem = refl

resumable_lem : scan_resumable 10 20 (new_run ∷ []) ≡ new_run ∷ []
unfolding program
resumable_lem = refl
