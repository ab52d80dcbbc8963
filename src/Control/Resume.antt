-- ===== src/Control/Resume.antt =====
-- The checkpoints of a flow run, and what a resumption reads back from them: `drive_flow_run` of
-- backend/app/core/flow/k8s_orchestration.py.
use python_flow_hub.Prelude.{
  String, ◌≡◌, refl, ◌∙◌, Option, none, some, List, [], ◌∷◌, Dict, lookup, insert, if◌then◌else◌,
  ◌==◌, Bool-cases, inl, inr, ap, arith,
}
use python_flow_hub.Value.{Value, text, dict, fields, as_dict}
use python_flow_hub.Control.RunStore.{is_text}

-- The entry that `checkpoint` writes for a node.
unfoldable pub entry_of : String → Value → Value
entry_of status output =
    if status == "done"
    then dict (fields (("status", text status) ∷ ("output", output) ∷ []))
    else dict (fields (("status", text status) ∷ []))

-- `checkpoint`
unfoldable pub save : String → String → Value → Dict Value → Dict Value
unfolding entry_of
save node_id status output states = insert node_id (entry_of status output) states

-- A call of `checkpoint`.
pub record Saving : Type 0 where
  pub node_id : String
  pub status : String
  pub output : Value

unfoldable pub save_all : List Saving → Dict Value → Dict Value
unfolding save
save_all [] states = states
save_all (c ∷ cs) states = save_all cs (save c.node_id c.status c.output states)

-- `prior_outputs`, `prior_active` and `prior_skipped`
pub record Prior : Type 0 where
  pub outputs : Dict Value
  pub active_ports : Dict Value
  pub skipped : List String

unfoldable pub restore_done : String → Dict Value → Prior → Prior
restore_done nid st p = elim (lookup "hit_port" st) [
  | some port ↦ record p { active_ports = insert nid port p.active_ports }
  | none ↦ elim (lookup "output" st) [
    | some output ↦ record p { outputs = insert nid output p.outputs }
    | none ↦ p
  ]
]

unfoldable pub restore_entry : String → Option (Dict Value) → Prior → Prior
unfolding restore_done
restore_entry nid none p = p
restore_entry nid (some st) p =
    if is_text "skipped" (lookup "status" st)
    then record p { skipped = nid ∷ p.skipped }
    else if is_text "done" (lookup "status" st)
    then restore_done nid st p
    else p

unfoldable pub restore : Dict Value → Prior → Prior
unfolding restore_entry
restore [] p = p
restore ((nid, st) ∷ states) p = restore states (restore_entry nid (as_dict st) p)

abbrev pub no_prior : Prior
no_prior = record { outputs = []; active_ports = []; skipped = [] }

-- Every entry was written by a checkpoint.
Written : Dict Value → Type 0
Written [] = Unit
Written ((k, v) ∷ d) = ((s : String) × (o : Value) × (v ≡ entry_of s o)) × Written d

Written-insert :
    (k s : String) (o : Value) (d : Dict Value) → Written d → Written (insert k (entry_of s o) d)
unfolding Written insert
Written-insert k s o [] w = ((s, o, refl), tt)
Written-insert k s o ((j, v) ∷ d) (e, w) = elim (Bool-cases (j == k)) [
  | inl same ↦ rw same ((s, o, refl), w)
  | inr other ↦ rw other (e, Written-insert k s o d w)
]

Written-save_all : (calls : List Saving) (d : Dict Value) → Written d → Written (save_all calls d)
unfolding save_all save
Written-save_all [] d w = w
Written-save_all (c ∷ cs) d w =
    Written-save_all cs _ (Written-insert c.node_id c.status c.output d w)

active_ports-restore_entry :
    (nid s : String) (o : Value) (p : Prior)
    → (restore_entry nid (as_dict (entry_of s o)) p).active_ports ≡ p.active_ports
unfolding restore_entry restore_done entry_of lookup
active_ports-restore_entry nid s o p = elim (Bool-cases (s == "done")) [
  | inl done ↦ rw done (ground arith)
  | inr other ↦ rw other (ground arith)
]

active_ports-restore-Written :
    (d : Dict Value) (p : Prior) → Written d → (restore d p).active_ports ≡ p.active_ports
unfolding Written restore
active_ports-restore-Written [] p w = refl
active_ports-restore-Written ((k, v) ∷ d) p ((s, o, e), w) =
    active_ports-restore-Written d (restore_entry k (as_dict v) p) w
    ∙ ap (λ (x : Value). (restore_entry k (as_dict x) p).active_ports) e
    ∙ active_ports-restore_entry k s o p

-- Whatever checkpoints a run has written, those of its branches with their ports included, a
-- resumption reads back no port of a branch.
pub active_ports-restore :
    (calls : List Saving) → (restore (save_all calls []) no_prior).active_ports ≡ []
unfolding Written
active_ports-restore calls =
    active_ports-restore-Written (save_all calls []) no_prior (Written-save_all calls [] tt)
