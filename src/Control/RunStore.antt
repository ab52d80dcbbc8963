-- ===== src/Control/RunStore.antt =====
-- backend/app/core/flow/flow_run_store.py: the lease of one flow run, as the row of the database
-- that holds it, if there is one.
pub mod Fencing
pub mod Samples
use python_flow_hub.Prelude.{
  ℕ, zero, suc, ◌+◌, String, ◌≡◌, refl, Bool, true, false, not, ◌&&◌, ◌||◌, Option, none, some,
  List, [], ◌∷◌, Dict, lookup, if◌then◌else◌, ◌==◌, leb, eqb,
}
use python_flow_hub.Value.{Value, as_dict}

-- The columns of `FlowRun` that the lease is about. An empty `owner_pod` counts as none.
pub record FlowRun : Type 0 where
  pub status : String
  pub node_states : Dict Value
  pub owner_pod : String
  pub fence_token : ℕ
  pub lease_expire_at : Option ℕ

abbrev pub Row : Type 0
Row = Option FlowRun

abbrev pub is_expired : ℕ → Option ℕ → Bool
is_expired now none = true
is_expired now (some until) = leb until now

-- Whether the read of `claim_run` goes on to the update.
unfoldable pub may_claim : String → ℕ → FlowRun → Bool
may_claim pod_name now run =
    (run.status == "running")
    && (run.owner_pod == "" || (run.owner_pod == pod_name || is_expired now run.lease_expire_at))

-- `update(FlowRun).where(...).values(...)`: if a row matched, and the row after it.
unfoldable pub update_where : (FlowRun → Bool) → (FlowRun → FlowRun) → Row → Bool × Row
update_where matches values none = (false, none)
update_where matches values (some run) =
    if matches run then (true, some (values run)) else (false, some run)

-- The update of `claim_run`, after a read that saw the token `seen`.
unfoldable pub take : String → (seen until : ℕ) → Row → Option ℕ × Row
unfolding update_where
take pod_name seen until row =
    let (matched, row') =
      update_where (λ run. eqb run.fence_token seen)
        (λ run. record run {
          owner_pod = pod_name;
          fence_token = suc seen;
          lease_expire_at = some until;
        })
        row in
    (if matched then some (suc seen) else none, row')

-- `others` is what other replicas do between the read and the update.
unfoldable pub claim_run : (Row → Row) → String → (now lease_ttl : ℕ) → Row → Option ℕ × Row
unfolding may_claim take
claim_run others pod_name now lease_ttl none = (none, none)
claim_run others pod_name now lease_ttl (some run) =
    if may_claim pod_name now run
    then take pod_name run.fence_token (now + lease_ttl) (others (some run))
    else (none, some run)

abbrev pub is_ours : String → ℕ → FlowRun → Bool
is_ours pod_name fence_token run = eqb run.fence_token fence_token && run.owner_pod == pod_name

unfoldable pub renew_lease : String → ℕ → (now lease_ttl : ℕ) → Row → Bool × Row
unfolding update_where
renew_lease pod_name fence_token now lease_ttl =
    update_where (is_ours pod_name fence_token)
      (λ run. record run { lease_expire_at = some (now + lease_ttl) })

unfoldable pub release_lease : String → ℕ → (now : ℕ) → Row → Row
unfolding update_where
release_lease pod_name fence_token now row =
    (update_where (is_ours pod_name fence_token) (λ run. record run { lease_expire_at = some now })
      row).1

-- The selection of `scan_resumable`, on rows that are sorted by their creation.
unfoldable pub running : ℕ → List FlowRun → List FlowRun
running zero runs = []
running (suc limit) [] = []
running (suc limit) (run ∷ runs) =
    let found = running limit runs in
    let other = running (suc limit) runs in if run.status == "running" then run ∷ found else other

unfoldable pub expired : ℕ → List FlowRun → List FlowRun
expired now [] = []
expired now (run ∷ runs) =
    let rest = expired now runs in if is_expired now run.lease_expire_at then run ∷ rest else rest

unfoldable pub scan_resumable : (now limit : ℕ) → List FlowRun → List FlowRun
unfolding running expired
scan_resumable now limit runs = expired now (running limit runs)

-- `st.get(key) == s`
abbrev pub is_text : String → Option Value → Bool
is_text s none = false
is_text s (some Value.null) = false
is_text s (some (Value.bool b)) = false
is_text s (some (Value.num n)) = false
is_text s (some (Value.text t)) = t == s
is_text s (some (Value.list xs)) = false
is_text s (some (Value.dict fs)) = false

abbrev pub is_completed : Value → Bool
is_completed v = elim (as_dict v) [
  | none ↦ false
  | some st ↦ is_text "done" (lookup "status" st) || is_text "skipped" (lookup "status" st)
]

unfoldable pub completed_nodes : Dict Value → List String
completed_nodes [] = []
completed_nodes ((nid, st) ∷ states) =
    let rest = completed_nodes states in if is_completed st then nid ∷ rest else rest
