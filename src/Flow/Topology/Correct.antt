-- ===== src/Flow/Topology/Correct.antt =====
-- What `topological_order` returns, and when it raises.
use mathlib.Core.List.{Memᴰ, append_assoc}
use mathlib.Core.List.Memᴰ
use native.Mathlib.Decide.{dec_lt}
use python_flow_hub.Prelude.{
  ℕ, zero, suc, ◌<◌, String, ◌≡◌, refl, sym, ◌∙◌, ap, true, false, not, eq_refl, ◌&&◌, List, [],
  ◌∷◌, ◌++◌, arith, contains, count, contains_of_count, eq_iff, ◌==◌, Bool-cases, inl, inr,
}
use python_flow_hub.Flow.Graph.{Edge, waiting, AllKnown, Precedes}
use python_flow_hub.Flow.Topology.Loop.{Inv, Ordered}

-- An edge into `v` that waits for nothing has its source among the done.
pub waiting_zero :
    (es : List Edge) (done : List String) (e : Edge)
    → Memᴰ e es
    → waiting es done e.target_node_id ≡ 0
    → contains e.source_node_id done ≡ true
unfolding waiting
waiting_zero [] done e m h = absurd (Memᴰ.not-nil m)
waiting_zero (x ∷ es) done e m h = elim (Memᴰ.cases_cons m) [
  | inl same ↦ ground (arith, same, eq_refl e.target_node_id)
  | inr later ↦ ground (arith, waiting_zero es done e later)
]

-- An edge that waits, as a member of the list.
waiting_edge :
    (es : List Edge) (done : List String) (v : String)
    → 0 < waiting es done v
    → (e : Edge) × Memᴰ e es × (e.target_node_id ≡ v) × (contains e.source_node_id done ≡ false)
unfolding waiting
waiting_edge [] done v h = absurd (omega arith)
waiting_edge (e ∷ es) done v h =
    elim (Bool-cases (e.target_node_id == v && not (contains e.source_node_id done))) [
      | inl here ↦ (e, Memᴰ.head refl, ground (arith, eq_iff e.target_node_id v), ground arith)
      | inr later ↦
          let (e', m, t, s) = waiting_edge es done v (ground arith) in (e', Memᴰ.tail m, t, s)
    ]

pub Ordered-Precedes :
    (edges : List Edge) (e : Edge) (seen xs : List String)
    → Memᴰ e edges
    → Ordered edges seen xs
    → contains e.target_node_id xs ≡ true
    → Precedes e.source_node_id e.target_node_id (seen ++ xs)
Ordered-Precedes edges e seen [] m o h = absurd (cc)
Ordered-Precedes edges e seen (x ∷ xs) m o h = elim (Bool-cases (x == e.target_node_id)) [
  | inl here ↦
      let same = (eq_iff x e.target_node_id).0 here in
      (seen, xs, rw same, waiting_zero edges seen e m (rw (sym same) o.0))
  | inr later ↦
      let (before, after, split, s) =
        Ordered-Precedes edges e (seen ++ x ∷ []) xs m o.1 (ground arith) in
      (before, after, sym (append_assoc seen (x ∷ []) xs) ∙ split, s)
]

pub AllKnown-source :
    (ids : List String) (es : List Edge) (e : Edge)
    → AllKnown ids es
    → Memᴰ e es
    → contains e.source_node_id ids ≡ true
AllKnown-source ids [] e k m = absurd (Memᴰ.not-nil m)
AllKnown-source ids (x ∷ es) e k m = elim (Memᴰ.cases_cons m) [
  | inl same ↦ rw same k.0
  | inr later ↦ AllKnown-source ids es e k.2 later
]

pub AllKnown-target :
    (ids : List String) (es : List Edge) (e : Edge)
    → AllKnown ids es
    → Memᴰ e es
    → contains e.target_node_id ids ≡ true
AllKnown-target ids [] e k m = absurd (Memᴰ.not-nil m)
AllKnown-target ids (x ∷ es) e k m = elim (Memᴰ.cases_cons m) [
  | inl same ↦ rw same k.1
  | inr later ↦ AllKnown-target ids es e k.2 later
]

-- A node that is left out of the drained order has an edge from another such node.
left_out :
    (ids : List String) (edges : List Edge) (final : List String) (indegree : String → ℕ)
    → Inv ids edges [] indegree final
    → AllKnown ids edges
    → (v : String) → contains v ids ≡ true
    → count v final ≡ 0
    → (e : Edge) × Memᴰ e edges
      × (e.target_node_id ≡ v)
      × (count e.source_node_id final ≡ 0)
      × (contains e.source_node_id ids ≡ true)
left_out ids edges final indegree inv known v here out =
    let (e, m, t, s) = waiting_edge edges final v (ground (arith, inv.counted v)) in
    (
      e,
      m,
      t,
      ground (arith, contains_of_count e.source_node_id final),
      AllKnown-source ids edges e known m,
    )

-- No node is left out where every edge climbs in some ranking.
pub none_left :
    (ids : List String) (edges : List Edge) (final : List String) (indegree : String → ℕ)
    → Inv ids edges [] indegree final
    → AllKnown ids edges
    → (rank : String → ℕ)
    → ((e : Edge) → Memᴰ e edges → rank e.source_node_id < rank e.target_node_id)
    → (bound : ℕ) (v : String) → rank v < bound
    → contains v ids ≡ true
    → 0 < count v final
none_left ids edges final indegree inv known rank climbs zero v lt here = absurd (omega arith)
none_left ids edges final indegree inv known rank climbs (suc bound) v lt here =
    elim (dec_lt 0 (count v final)) [
      | yes p ↦ p
      | no out ↦
          let (e, m, t, s, k) = left_out ids edges final indegree inv known v here (omega arith) in
          let lower =
            none_left ids edges final indegree inv known rank climbs bound e.source_node_id
              (omega (arith, climbs e m, ap rank t)) k in
          absurd (omega (arith, lower, s))
    ]
