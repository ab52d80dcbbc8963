-- ===== src/Flow/Topology/Degrees.antt =====
-- What the tables of `topological_order` hold once the edges are read.
use mathlib.Core.List.{append-nil, append_assoc}
use python_flow_hub.Prelude.{
  ◌+◌, ◌≤◌, String, ◌≡◌, refl, false, List, [], ◌∷◌, ◌++◌, arith, contains, count, count-append,
  count_self, contains-append, eqb, ltb, ◌&&◌, eq_iff, if◌then◌else◌, ok,
}
use python_flow_hub.Prelude.{err}
use python_flow_hub.Flow.Graph.{DagError, unknown_node, Edge, successors, waiting, AllKnown}
use python_flow_hub.Flow.Topology.{Tables, link, build, Frontier, relax, relax_all}

pub build-adj :
    (ids : List String) (t t' : Tables) (es : List Edge) (u : String)
    → build ids t es ≡ ok t'
    → t'.adj u ≡ t.adj u ++ successors es u
unfolding build successors
build-adj ids t t' [] u h = ground (arith, append-nil (t.adj u))
build-adj ids t t' (e ∷ es) u h = ground (
  arith,
  build-adj ids (link t e) t' es u,
  append_assoc (t.adj u) (e.target_node_id ∷ []) (successors es u),
)

pub build-indegree :
    (ids : List String) (t t' : Tables) (es : List Edge) (v : String)
    → build ids t es ≡ ok t'
    → t'.indegree v ≡ t.indegree v + waiting es [] v
unfolding build waiting
build-indegree ids t t' [] v h = ground arith
build-indegree ids t t' (e ∷ es) v h = ground (arith, build-indegree ids (link t e) t' es v)

pub build-AllKnown :
    (ids : List String) (t t' : Tables) (es : List Edge) → build ids t es ≡ ok t' → AllKnown ids es
unfolding build
build-AllKnown ids t t' [] h = tt
build-AllKnown ids t t' (e ∷ es) h = ground (arith, build-AllKnown ids (link t e) t' es)

pub build_total :
    (ids : List String) (t : Tables) (es : List Edge)
    → AllKnown ids es
    → (t' : Tables) × (build ids t es ≡ ok t')
unfolding build
build_total ids t [] known = (t, refl)
build_total ids t (e ∷ es) known =
    let (t', h) = build_total ids (link t e) es known.2 in (t', ground arith)

-- Only an unknown node makes the loop over the edges raise.
pub build-err :
    (ids : List String) (t : Tables) (es : List Edge) (e : DagError)
    → build ids t es ≡ err e
    → (e ≡ unknown_node) × ¬ AllKnown ids es
unfolding build
build-err ids t [] e h = absurd (cc)
build-err ids t (x ∷ es) e h = ground (arith, build-err ids (link t x) es e)

-- A node that leaves the queue takes its edges out of the counts.
pub waiting-snoc :
    (es : List Edge) (done : List String) (u v : String)
    → contains u done ≡ false
    → waiting es (done ++ u ∷ []) v + count v (successors es u) ≡ waiting es done v
unfolding waiting successors
waiting-snoc [] done u v h = omega arith
waiting-snoc (e ∷ es) done u v h = ground (
  arith,
  waiting-snoc es done u v,
  contains-append e.source_node_id done (u ∷ []),
  eq_iff e.source_node_id u,
  eq_iff u e.source_node_id,
)

-- The inner loop takes one from the degree of each successor, and queues those that reach 0.
pub record Relaxed (f g : Frontier) (ns : List String) (v : String) : Type 0 where
  pub degree : g.indegree v + count v ns ≡ f.indegree v
  pub queued :
      count v g.queue
      ≡ count v f.queue + (if ltb 0 (count v ns) && eqb (f.indegree v) (count v ns) then 1 else 0)

pub relax_all-Relaxed :
    (f : Frontier) (ns : List String) (v : String)
    → ((w : String) → count w ns ≤ f.indegree w)
    → Relaxed f (relax_all f ns) ns v
unfolding relax_all
relax_all-Relaxed f [] v h = ground arith
relax_all-Relaxed f (n ∷ ns) v h =
    let rest =
      relax_all-Relaxed (relax f n) ns v
        (λ w. ground (arith, h w, h n, eq_iff n w, count_self n ns)) in
    ground (arith, h v, h n, eq_iff n v, count-append v f.queue (n ∷ []), count_self n ns, rest)
