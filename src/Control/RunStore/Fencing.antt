-- ===== src/Control/RunStore/Fencing.antt =====
-- The tokens of a flow run, whatever the replicas do (backend/app/core/flow/flow_run_store.py).
use mathlib.Core.Option.{none-ne-some}
use python_flow_hub.Prelude.{
  ℕ, suc, ◌+◌, ◌≤◌, ◌<◌, String, ◌≡◌, refl, sym, ◌∙◌, ap, subst, Bool, true, false, Option, none,
  some, Bool-cases, ◌⊎◌, ◌==◌, eq_iff, inl, inr, arith, eqb, Dict,
}
use python_flow_hub.Value.{Value}
use python_flow_hub.Control.RunStore.{
  FlowRun, Row, update_where, take, claim_run, renew_lease, release_lease, may_claim, is_expired,
}

-- One command of some replica on the row. A row is deleted, but not made again.
pub data Step : Row → Row → Type 0 where
  took : (pod : String) (seen until : ℕ) (r : Row) → Step r (take pod seen until r).1
  renewed :
      (pod : String) (token now lease : ℕ) (r : Row) → Step r (renew_lease pod token now lease r).1
  released : (pod : String) (token now : ℕ) (r : Row) → Step r (release_lease pod token now r)
  saved :
      (status : String) (states : Dict Value) (run : FlowRun)
      → Step (some run) (some (record run { status = status; node_states = states }))
  deleted : (r : Row) → Step r none

pub data Steps (r : Row) : Row → Type 0 where
  stay : Steps r r
  next : {t u : Row} → Steps r t → Step t u → Steps r u

-- The row, if there is one, holds at least the token `n`.
unfoldable pub AtLeast : ℕ → Row → Type 0
AtLeast n none = Unit
AtLeast n (some run) = n ≤ run.fence_token

AtLeast-update_where :
    (n : ℕ) (matches : FlowRun → Bool) (values : FlowRun → FlowRun) (r : Row)
    → ((run : FlowRun) → matches run ≡ true → run.fence_token ≤ (values run).fence_token)
    → AtLeast n r
    → AtLeast n (update_where matches values r).1
unfolding AtLeast update_where
AtLeast-update_where n matches values none grows h = h
AtLeast-update_where n matches values (some run) grows h = elim (Bool-cases (matches run)) [
  | inl hit ↦ rw hit (omega (arith, grows run hit, h))
  | inr miss ↦ rw miss h
]

AtLeast-Step : (n : ℕ) {r t : Row} → Step r t → AtLeast n r → AtLeast n t
unfolding AtLeast take renew_lease release_lease
AtLeast-Step n (took pod seen until r) h =
    AtLeast-update_where n _ _ r (λ run hit. ground (arith, hit)) h
AtLeast-Step n (renewed pod token now lease r) h =
    AtLeast-update_where n _ _ r (λ run hit. omega arith) h
AtLeast-Step n (released pod token now r) h =
    AtLeast-update_where n _ _ r (λ run hit. omega arith) h
AtLeast-Step n (saved status states run) h = h
AtLeast-Step n (deleted r) h = tt

AtLeast-Steps : (n : ℕ) {r t : Row} → Steps r t → AtLeast n r → AtLeast n t
AtLeast-Steps n stay h = h
AtLeast-Steps n (next steps step) h = AtLeast-Step n step (AtLeast-Steps n steps h)

-- What a grant shows: the token is the next one after the one that was read, and the row holds it.
abbrev Granted : String → ℕ → ℕ → Row → Type 0
Granted pod seen token r =
    (token ≡ suc seen)
    × (run : FlowRun) × (r ≡ some run)
    × (run.fence_token ≡ token)
    × (run.owner_pod ≡ pod)

abbrev taken_by : String → ℕ → ℕ → FlowRun → FlowRun
taken_by pod seen until run = record run {
  owner_pod = pod;
  fence_token = suc seen;
  lease_expire_at = some until;
}

take_hit :
    (pod : String) (seen until : ℕ) (run : FlowRun)
    → eqb run.fence_token seen ≡ true
    → take pod seen until (some run) ≡ (some (suc seen), some (taken_by pod seen until run))
unfolding take
take_hit pod seen until run hit = rw hit

take_miss :
    (pod : String) (seen until : ℕ) (run : FlowRun)
    → eqb run.fence_token seen ≡ false
    → take pod seen until (some run) ≡ (none, some run)
unfolding take
take_miss pod seen until run miss = rw miss

abbrev or_zero : Option ℕ → ℕ
or_zero none = 0
or_zero (some n) = n

take-Granted :
    (pod : String) (seen until token : ℕ) (r : Row)
    → (take pod seen until r).0 ≡ some token
    → Granted pod seen token (take pod seen until r).1
unfolding take update_where
take-Granted pod seen until token none granted = absurd (none-ne-some token granted)
take-Granted pod seen until token (some run) granted =
    elim (Bool-cases (eqb run.fence_token seen)) [
      | inl hit ↦
          let e = take_hit pod seen until run hit in
          let same : suc seen ≡ token =
            ap or_zero (sym (ap (λ (x : Option ℕ × Row). x.0) e) ∙ granted) in
          (sym same, taken_by pod seen until run, ap (λ (x : Option ℕ × Row). x.1) e, same, refl)
      | inr miss ↦
          let e = take_miss pod seen until run miss in
          absurd (none-ne-some token (sym (ap (λ (x : Option ℕ × Row). x.0) e) ∙ granted))
    ]

claim_taken :
    (others : Row → Row) (pod : String) (now lease : ℕ) (run : FlowRun)
    → may_claim pod now run ≡ true
    → claim_run others pod now lease (some run)
      ≡ take pod run.fence_token (now + lease) (others (some run))
unfolding claim_run
claim_taken others pod now lease run may = rw may

claim_refused :
    (others : Row → Row) (pod : String) (now lease : ℕ) (run : FlowRun)
    → may_claim pod now run ≡ false
    → claim_run others pod now lease (some run) ≡ (none, some run)
unfolding claim_run
claim_refused others pod now lease run refused = rw refused

claim_run-Granted :
    (others : Row → Row) (pod : String) (now lease token : ℕ) (r : Row)
    → (claim_run others pod now lease r).0 ≡ some token
    → (run : FlowRun) × (r ≡ some run)
      × (may_claim pod now run ≡ true)
      × Granted pod run.fence_token token (claim_run others pod now lease r).1
unfolding claim_run
claim_run-Granted others pod now lease token none granted = absurd (none-ne-some token granted)
claim_run-Granted others pod now lease token (some run) granted =
    elim (Bool-cases (may_claim pod now run)) [
      | inl may ↦
          let e = claim_taken others pod now lease run may in
          (
            run,
            refl,
            may,
            subst (λ (x : Option ℕ × Row). Granted pod run.fence_token token x.1) (sym e)
                (take-Granted pod run.fence_token (now + lease) token (others (some run))
                  (sym (ap (λ (x : Option ℕ × Row). x.0) e) ∙ granted)),
          )
      | inr not_now ↦ absurd (
          none-ne-some token (
            sym (ap (λ (x : Option ℕ × Row). x.0) (claim_refused others pod now lease run not_now))
            ∙ granted))
    ]

AtLeast-Granted :
    (pod : String) (seen token : ℕ) (r : Row) → Granted pod seen token r → AtLeast token r
unfolding AtLeast
AtLeast-Granted pod seen token r (next_one, run, e, holds, owner) =
    subst (λ (x : Row). AtLeast token x) (sym e) (omega (arith, holds))

renew_lease_stale :
    (pod : String) (token now lease : ℕ) (run : FlowRun)
    → token < run.fence_token
    → renew_lease pod token now lease (some run) ≡ (false, some run)
unfolding renew_lease
renew_lease_stale pod token now lease run lt = ground arith

release_lease_stale :
    (pod : String) (token now : ℕ) (run : FlowRun)
    → token < run.fence_token
    → release_lease pod token now (some run) ≡ some run
unfolding release_lease
release_lease_stale pod token now run lt = ground arith

-- Nobody else holds the run: it has no owner, its owner is the pod itself, or the lease is not set
-- or over.
abbrev pub IsFree : String → ℕ → FlowRun → Type 0
IsFree pod now run =
    (run.owner_pod ≡ "")
    ⊎ (run.owner_pod ≡ pod)
    ⊎ (run.lease_expire_at ≡ none)
    ⊎ ((until : ℕ) × (run.lease_expire_at ≡ some until) × (until ≤ now))

is_expired-cases :
    (now : ℕ) (lease : Option ℕ)
    → is_expired now lease ≡ true
    → (lease ≡ none) ⊎ ((until : ℕ) × (lease ≡ some until) × (until ≤ now))
is_expired-cases now none h = inl refl
is_expired-cases now (some until) h = inr (until, refl, ground arith)

may_claim-IsFree :
    (pod : String) (now : ℕ) (run : FlowRun)
    → may_claim pod now run ≡ true
    → (run.status ≡ "running") × IsFree pod now run
unfolding may_claim
may_claim-IsFree pod now run may = (
  (eq_iff run.status "running").0 (ground arith),
  elim (Bool-cases (run.owner_pod == "")) [
    | inl unowned ↦ inl ((eq_iff run.owner_pod "").0 unowned)
    | inr owned ↦ elim (Bool-cases (run.owner_pod == pod)) [
      | inl own ↦ inr (inl ((eq_iff run.owner_pod pod).0 own))
      | inr foreign ↦ inr (inr (is_expired-cases now run.lease_expire_at (ground arith)))
    ]
  ],
)

-- Once a replica was granted a token, whatever any replica does to the row and whatever others do
-- during the next claim: a later grant is of a greater token, and it finds the run with the status
-- "running" and without an owner, owned by the claiming pod, or with a lease that is not set or
-- over; after it the first replica's token neither renews nor releases the lease, and changes
-- nothing.
pub claim_run-fences :
    (others others' : Row → Row) (pod pod' : String) (now now' lease lease' token token' : ℕ)
    (r t : Row)
    → (claim_run others pod now lease r).0 ≡ some token
    → Steps (claim_run others pod now lease r).1 t
    → (claim_run others' pod' now' lease' t).0 ≡ some token'
    → (token < token')
      × ((p : String) (n l : ℕ)
          → let r' = (claim_run others' pod' now' lease' t).1 in
            (renew_lease p token n l r' ≡ (false, r')) × (release_lease p token n r' ≡ r'))
      × ((run : FlowRun) × (t ≡ some run) × (run.status ≡ "running") × IsFree pod' now' run)
unfolding AtLeast
claim_run-fences others others' pod pod' now now' lease lease' token token' r t first steps second =
    let (run, er, may, grant) = claim_run-Granted others pod now lease token r first in
    let (run', et, may', (next_one, run'', e', holds, owner)) =
      claim_run-Granted others' pod' now' lease' token' t second in
    let low : AtLeast token (some run') =
      subst (λ (x : Row). AtLeast token x) et
        (AtLeast-Steps token steps (AtLeast-Granted pod run.fence_token token _ grant)) in
    let (status, free) = may_claim-IsFree pod' now' run' may' in
    (
      omega (arith, low, next_one),
      λ p n l.
          let lt : token < run''.fence_token = omega (arith, low, next_one, holds) in
          (
            subst (λ (x : Row). renew_lease p token n l x ≡ (false, x)) (sym e')
                (renew_lease_stale p token n l run'' lt),
            subst (λ (x : Row). release_lease p token n x ≡ x) (sym e')
                (release_lease_stale p token n run'' lt),
          ),
      (run', et, status, free),
    )
