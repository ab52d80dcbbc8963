-- ===== src/Flow/Topology/Loop.antt =====
-- The `while queue` loop of `topological_order`: its invariant, and that its fuel is enough.
use mathlib.Core.List.{append_assoc, append-nil}
use python_flow_hub.Prelude.{
  ℕ, ◌+◌, ◌<◌, String, ◌≡◌, Bool, true, false, ◌&&◌, List, [], ◌∷◌, ◌++◌, arith, contains, count,
  count-append, count_self, count_of_contains, eqb, if◌then◌else◌, eq_iff,
}
use python_flow_hub.Flow.Graph.{Edge, successors, waiting, AllKnown}
use python_flow_hub.Flow.Topology.{Frontier, relax_all}
use python_flow_hub.Flow.Topology.Degrees.{waiting-snoc, Relaxed, relax_all-Relaxed}

-- At its place, no edge into a node starts behind it.
abbrev pub Ordered : List Edge → List String → List String → Type 0
Ordered edges seen [] = Unit {0}
Ordered edges seen (x ∷ xs) = (waiting edges seen x ≡ 0) × Ordered edges (seen ++ x ∷ []) xs

Ordered-snoc :
    (edges : List Edge) (seen xs : List String) (x : String)
    → Ordered edges seen xs
    → waiting edges (seen ++ xs) x ≡ 0
    → Ordered edges seen (xs ++ x ∷ [])
Ordered-snoc edges seen [] x h w = (rw append-nil at w, tt)
Ordered-snoc edges seen (y ∷ xs) x h w =
    (h.0, Ordered-snoc edges (seen ++ y ∷ []) xs x h.1 (rw append_assoc w))

waiting_known :
    (ids : List String) (es : List Edge) (done : List String) (v : String)
    → AllKnown ids es
    → 0 < waiting es done v
    → contains v ids ≡ true
unfolding waiting
waiting_known ids [] done v k h = absurd (omega arith)
waiting_known ids (e ∷ es) done v k h =
    ground (arith, eq_iff e.target_node_id v, waiting_known ids es done v)

-- One indicator: `v` is a node and no edge into it waits.
abbrev pub is_free : List String → List Edge → List String → String → Bool
is_free ids edges done v = contains v ids && eqb (waiting edges done v) 0

module _ (ids : List String) (edges : List Edge) where
  pub record Inv (queue : List String) (indegree : String → ℕ) (order : List String) : Type 0 where
    pub degrees : (v : String) → indegree v ≡ waiting edges order v
    pub counted :
        (v : String) → count v order + count v queue ≡ (if is_free ids edges order v then 1 else 0)
    pub ordered : Ordered edges [] order

  module _ (known : AllKnown ids edges) (cur : String) (queue : List String) (indegree : String → ℕ)
      (order : List String) (inv : Inv (cur ∷ queue) indegree order) where
    fresh : contains cur order ≡ false
    fresh = ground (arith, inv.counted cur, count_self cur queue, count_of_contains cur order)

    cur_free : waiting edges order cur ≡ 0
    cur_free = ground (arith, inv.counted cur, count_self cur queue)

    abbrev pub next : Frontier
    next = relax_all (record { indegree = indegree; queue = queue }) (successors edges cur)

    relaxed :
        (v : String)
        → Relaxed (record { indegree = indegree; queue = queue }) next (successors edges cur) v
    relaxed v =
        relax_all-Relaxed _ (successors edges cur) v
          (λ w. omega (arith, inv.degrees w, waiting-snoc edges order cur w fresh))

    pub Inv-step : Inv next.queue next.indegree (order ++ cur ∷ [])
    Inv-step = record {
      degrees = λ v.
          omega (arith, (relaxed v).degree, inv.degrees v, waiting-snoc edges order cur v fresh);
      counted = λ v. ground (
        arith,
        (relaxed v).queued,
        (relaxed v).degree,
        inv.degrees v,
        inv.counted v,
        waiting-snoc edges order cur v fresh,
        waiting_known ids edges order v known,
        count-append v order (cur ∷ []),
      );
      ordered = Ordered-snoc edges [] order cur inv.ordered cur_free;
    }
