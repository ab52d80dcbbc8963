-- ===== src/Control/Import.antt =====
-- The inference of a flow's edges from its scripts (backend/app/core/flow/zip_import.py).
pub mod Scan
pub mod Search
pub mod Greedy
pub mod Growth
pub mod Pairs
pub mod Whole
pub mod Archive
pub mod Samples
use Prim.Native.String.{compare}
use Prim.Native.Nat.{Ordering}
use python_flow_hub.Prelude.{
  ℕ, zero, suc, String, Bool, true, false, not, ◌&&◌, ◌||◌, Option, some, none, List, [], ◌∷◌, ◌++◌,
  map, length, select, contains, Dict, lookup, ltb, eqb, ◌==◌, if◌then◌else◌,
}
use python_flow_hub.Flow.Graph.{Edge}
use python_flow_hub.Control.Import.Scan.{Ast, extract_return_keys, extract_input_keys}

-- Python's stable sort, for a strict order.
module _ {A : Type 0} (before : A → A → Bool) where
  abbrev pub insert_sorted : A → List A → List A
  insert_sorted x [] = x ∷ []
  insert_sorted x (y ∷ ys) = if before y x then y ∷ insert_sorted x ys else x ∷ y ∷ ys

  abbrev pub sort : List A → List A
  sort [] = []
  sort (x ∷ xs) = insert_sorted x (sort xs)

abbrev pub text_before : String → String → Bool
text_before a b = elim (compare a b) [ Ordering.lt ↦ true | _ ↦ false ]

pub record Candidate : Type 0 where
  pub src_path : String
  pub dst_path : String
  pub matched : List String

pub record Inferred : Type 0 where
  pub source_node_id : String
  pub target_node_id : String
  pub matched_keys : List String

-- An edge with the ports that the program gives all of them.
abbrev pub as_edge : Inferred → Edge
as_edge e = record {
  source_node_id = e.source_node_id;
  target_node_id = e.target_node_id;
  source_port = "output";
}

-- The key of the sort: most matches first, then the paths.
abbrev pub stronger : Candidate → Candidate → Bool
stronger c d =
    ltb (length d.matched) (length c.matched)
    || (eqb (length c.matched) (length d.matched)
        && (text_before c.src_path d.src_path
            || (c.src_path == d.src_path && text_before c.dst_path d.dst_path)))

-- The `for` loop of `_reachable`; `none` means that the target was met.
unfoldable pub push_until : String → List String → List String → Option (List String)
push_until target stack [] = some stack
push_until target stack (nxt ∷ rest) =
    if nxt == target then none else push_until target (nxt ∷ stack) rest

abbrev pub with_seen : List String → Option (List String) → Option (List String × List String)
with_seen seen none = none
with_seen seen (some stack) = some (stack, seen)

module _ (adj : String → List String) (target : String) where
  -- One turn of the `while` loop, with the stack and the set `seen`; `none` means `return True`.
  unfoldable pub turn : String → (stack seen : List String) → Option (List String × List String)
  unfolding push_until
  turn cur stack seen =
      if contains cur seen
      then some (stack, seen)
      else with_seen (cur ∷ seen) (push_until target stack (adj cur))

  -- The loop on fuel; the head of the stack is its top.
  unfoldable pub search : (stack seen : List String) → ℕ → Option Bool
  unfolding turn
  search [] seen fuel = some false
  search (cur ∷ stack) seen zero = none
  search (cur ∷ stack) seen (suc fuel) = elim (turn cur stack seen) [
    | none ↦ some true
    | some (pushed, seen') ↦ search pushed seen' fuel
  ]

unfoldable pub reachable : (String → List String) → (start target : String) → ℕ → Option Bool
unfolding search
reachable adj start target fuel =
    if start == target then some true else search adj target (start ∷ []) [] fuel

-- `adj` and `edges`. `adj` holds its sets as lists.
pub record Chosen : Type 0 where
  pub adj : String → List String
  pub edges : List Inferred

unfoldable pub choose : Chosen → (src_id dst_id : String) → List String → Chosen
choose c src_id dst_id matched = record {
  adj = λ n. if src_id == n then c.adj n ++ dst_id ∷ [] else c.adj n;
  edges =
      c.edges
      ++ (record { source_node_id = src_id; target_node_id = dst_id; matched_keys = matched }) ∷ [];
}

-- `node_id_map[path]`, where the path is one of its keys.
abbrev pub text_or_empty : Option String → String
text_or_empty none = ""
text_or_empty (some s) = s

abbrev pub node_id_of : Dict String → String → String
node_id_of node_id_map path = text_or_empty (lookup path node_id_map)

module _ (set_of : List String → List String) (node_id_map : Dict String) where
  -- The greedy loop. A turn of the search for each chosen edge and one more are enough.
  unfoldable pub add_all : Chosen → List Candidate → Option Chosen
  unfolding reachable choose
  add_all c [] = some c
  add_all c (cand ∷ cands) =
      let src_id = node_id_of node_id_map cand.src_path in
      let dst_id = node_id_of node_id_map cand.dst_path in
      elim (reachable (λ n. set_of (c.adj n)) dst_id src_id (suc (length c.edges))) [
        | none ↦ none
        | some closes ↦ add_all (if closes then c else choose c src_id dst_id cand.matched) cands
      ]

module _ (ast : Ast) (scripts : Dict String) where
  abbrev pub matched_of : (src dst : String) → List String
  matched_of src dst =
      select (λ k. contains k (extract_input_keys ast (text_or_empty (lookup dst scripts))))
        (extract_return_keys ast (text_or_empty (lookup src scripts)))

  abbrev pub candidate : (src dst : String) → List String → List Candidate
  candidate src dst [] = []
  candidate src dst (k ∷ ks) =
      (record { src_path = src; dst_path = dst; matched = sort text_before (k ∷ ks) }) ∷ []

  unfoldable pub candidates_from : String → List String → List Candidate
  candidates_from src [] = []
  candidates_from src (dst ∷ paths) =
      (if src == dst then [] else candidate src dst (matched_of src dst))
      ++ candidates_from src paths

  unfoldable pub candidates : (srcs paths : List String) → List Candidate
  unfolding candidates_from
  candidates [] paths = []
  candidates (src ∷ srcs) paths = candidates_from src paths ++ candidates srcs paths

abbrev pub no_edges : Chosen
no_edges = record { adj = λ n. []; edges = [] }

abbrev pub keys : Dict String → List String
keys d = map (λ p. p.0) d

abbrev pub chosen_edges : Option Chosen → Option (List Inferred)
chosen_edges none = none
chosen_edges (some c) = some c.edges

unfoldable pub infer_data_flow_edges :
    Ast → (List String → List String) → (scripts node_id_map : Dict String) → Option (List Inferred)
unfolding add_all candidates
infer_data_flow_edges ast set_of scripts node_id_map = chosen_edges (
    add_all set_of node_id_map no_edges
      (sort stronger (candidates ast scripts (keys node_id_map) (keys node_id_map))))
