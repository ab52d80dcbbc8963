-- ===== src/Control/Versioning/Read.antt =====
-- Reading versions back, and the reconciliation of rows and objects
-- (backend/app/core/versioning/version_manager.py).
use python_flow_hub.Prelude.{
  ℕ, ◌+◌, String, Bool, false, not, Option, some, none, List, [], ◌∷◌, Dict, lookup, has_key, ◌==◌,
  if◌then◌else◌, Result, ok, err, ◌>>=◌, ◌>>◌, require,
}
use python_flow_hub.Value.{Value}
use python_flow_hub.Runtime.Errors.{Error, raised}
use python_flow_hub.Control.Versioning.{Formats, BlockVersion}

pub record Content : Type 0 where
  pub code : String
  pub requirements : Option String
  pub notebook : Option Value

pub record FlowVersion : Type 0 where
  pub snapshot_path : String

-- What `reconcile_orphans` counts of the rows. The orphans among the objects are left out.
pub record Counts : Type 0 where
  pub missing_objects : ℕ
  pub corrupted : ℕ

abbrev pub or_raise : {A : Type 0} → Option A → Result Error A
or_raise none = err (raised "ValueError")
or_raise (some a) = ok a

module _ {Bytes : Type 0} (formats : Formats Bytes) (objects : Dict Bytes) where
  -- `storage.get(key)`
  unfoldable pub get : String → Result Error Bytes
  get key = elim (lookup key objects) [
    | none ↦ err (raised "PYFLOW_STORAGE_ERROR")
    | some bytes ↦ ok bytes
  ]

  unfoldable pub get_text : String → Result Error String
  unfolding get
  get_text key = do bytes ← get key; or_raise (formats.decode bytes)

  unfoldable pub get_requirements : Option String → Result Error (Option String)
  unfolding get_text
  get_requirements none = ok none
  get_requirements (some key) = do text ← get_text key; ok (some text)

  unfoldable pub get_notebook : Option String → Result Error (Option Value)
  unfolding get
  get_notebook none = ok none
  get_notebook (some key) = do
    bytes ← get key
    notebook ← or_raise (formats.load bytes)
    ok (some notebook)

  unfoldable pub get_block_version_content : BlockVersion → Result Error Content
  unfolding get get_requirements get_notebook
  get_block_version_content version = do
    code_bytes ← get version.code_path
    require (formats.sha256_hex code_bytes == version.content_sha256)
        (raised "PYFLOW_VERSION_NOT_STABLE")
    code ← or_raise (formats.decode code_bytes)
    requirements ← get_requirements version.requirements_path
    notebook ← get_notebook version.notebook_path
    ok (record { code = code; requirements = requirements; notebook = notebook })

  -- The loop of `reconcile_orphans` over the versions of blocks: how many rows have no object, and
  -- how many one with another digest.
  abbrev pub is_missing : BlockVersion → Bool
  is_missing r = not (has_key r.code_path objects)

  abbrev pub differs : BlockVersion → Option Bytes → Bool
  differs r none = false
  differs r (some bytes) = not (formats.sha256_hex bytes == r.content_sha256)

  unfoldable pub count_missing : List BlockVersion → ℕ
  count_missing [] = 0
  count_missing (r ∷ rows) = (if is_missing r then 1 else 0) + count_missing rows

  unfoldable pub count_corrupted : List BlockVersion → ℕ
  count_corrupted [] = 0
  count_corrupted (r ∷ rows) =
      (if differs r (lookup r.code_path objects) then 1 else 0) + count_corrupted rows

  -- The loop over the versions of flows, which counts on.
  unfoldable pub count_missing_flows : List FlowVersion → ℕ
  count_missing_flows [] = 0
  count_missing_flows (f ∷ flows) =
      (if not (has_key f.snapshot_path objects) then 1 else 0) + count_missing_flows flows

  unfoldable pub reconcile_orphans : List BlockVersion → List FlowVersion → Counts
  unfolding count_missing count_corrupted count_missing_flows
  reconcile_orphans rows flows = record {
    missing_objects = count_missing rows + count_missing_flows flows;
    corrupted = count_corrupted rows;
  }
