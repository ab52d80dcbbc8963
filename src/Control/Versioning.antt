-- ===== src/Control/Versioning.antt =====
-- Versions of blocks: objects in the storage and rows in the database
-- (backend/app/core/versioning/version_manager.py).
pub mod Read
pub mod Stored
pub mod Backed
pub mod Content
pub mod Deletion
pub mod Samples
use Prim.Native.String.{◌++◌}
use python_flow_hub.Prelude.{
  ℕ, ◌+◌, String, ◌≡◌, refl, ◌⊎◌, inl, inr, Bool, true, false, not, ◌&&◌, ◌||◌, Option, some, none,
  List, [], ◌∷◌, map, length, select, contains, Dict, lookup, insert, has_key, ◌==◌, if◌then◌else◌,
  Result, ok, err,
}
use python_flow_hub.Value.{Value, truthy}
use python_flow_hub.Runtime.Errors.{Error, raised}

-- Python's conversions; `none` where they raise.
pub record Formats (Bytes : Type 0) : Type 0 where
  pub encode : String → Bytes
  pub decode : Bytes → Option String
  -- `json.dumps(v).encode("utf-8")`, and back.
  pub dump : Value → Bytes
  pub load : Bytes → Option Value
  pub strip : String → String
  pub sha256_hex : Bytes → String
  pub decode-encode : (s : String) → decode (encode s) ≡ some s
  pub load-dump : (v : Value) → load (dump v) ≡ some v

pub record Block : Type 0 where
  pub id : String
  pub draft_code : Option String
  pub draft_notebook : Value
  pub input_ports : Value
  pub output_ports : Value
  pub requirements_hash : String
  pub stable_version_id : Option String

pub record BlockVersion : Type 0 where
  pub id : String
  pub block_id : String
  pub version_tag : String
  pub commit_message : String
  pub created_by : String
  pub code_path : String
  pub requirements_path : Option String
  pub notebook_path : Option String
  pub input_ports : Value
  pub output_ports : Value
  pub requirements_hash : String
  pub content_sha256 : String
  pub is_stable : Bool

-- What the database does with the rows: a flush or the commit raises, and no row is written; the
-- rows are written, and the refresh after it raises; or it answers.
pub data Database : Type 0 where
  refuses unrefreshed answers : Database

pub Database-cases : (d : Database) → (d ≡ refuses) ⊎ ((d ≡ unrefreshed) ⊎ (d ≡ answers))
Database-cases refuses = inl refl
Database-cases unrefreshed = inr (inl refl)
Database-cases answers = inr (inr refl)

-- The objects in the storage, the rows as the session of the caller sees them, and whether it has
-- committed them.
pub record Vault (Bytes : Type 0) : Type 0 where
  pub objects : Dict Bytes
  pub versions : List BlockVersion
  pub blocks : Dict Block
  pub is_committed : Bool

-- The arguments of `create_block_version`, with the id that `gen_uuid` gives.
pub record Request : Type 0 where
  pub version_id : String
  pub version_tag : String
  pub commit_message : String
  pub login_id : String
  pub requirements_text : String
  pub set_stable : Bool
  pub auto_commit : Bool

abbrev pub block_key : (block_id version_id filename : String) → String
block_key block_id version_id filename =
    "blocks/" ++ (block_id ++ ("/" ++ (version_id ++ ("/" ++ filename))))

abbrev pub text_or_empty : Option String → String
text_or_empty none = ""
text_or_empty (some s) = s

abbrev pub Act : Type 0 → Type 0 → Type 0
Act Bytes A = Vault Bytes → Result Error A × Vault Bytes

abbrev pub continue :
    {Bytes A B : Type 0}
    → Result Error A × Vault Bytes
    → (A → Act Bytes B)
    → Result Error B × Vault Bytes
continue (ok a, v) f = f a v
continue (err e, v) f = (err e, v)

infixl 5 ◌>>=◌ ◌>>◌
abbrev pub ◌>>=◌ : {Bytes A B : Type 0} → Act Bytes A → (A → Act Bytes B) → Act Bytes B
◌>>=◌ m f v = continue (m v) f

abbrev pub ◌>>◌ : {Bytes B : Type 0} → Act Bytes (Unit {0}) → Act Bytes B → Act Bytes B
m >> k = m >>= λ _. k

-- The flag of the other versions of the block is cleared.
abbrev pub clear_stable : String → List BlockVersion → List BlockVersion
clear_stable block_id [] = []
clear_stable block_id (r ∷ rows) =
    (if r.block_id == block_id && r.is_stable then record r { is_stable = false } else r)
    ∷ clear_stable block_id rows

-- `validate` is `validate_requirements` with the settings, `up` says when the storage answers, and
-- `database` what the database does.
module _ {Bytes : Type 0} (formats : Formats Bytes) (requirements_hash : String → String)
    (validate : String → Result Error (Unit {0})) (up : Dict Bytes → Bool)
    (database : Database) where
  unfoldable pub put : String → Bytes → Act Bytes (Unit {0})
  put key bytes v =
      if up v.objects
      then (ok tt, record v { objects = insert key bytes v.objects })
      else (err (raised "PYFLOW_STORAGE_ERROR"), v)

  abbrev pub valid : String → Act Bytes (Unit {0})
  valid text v = (validate text, v)

  abbrev pub pure : {A : Type 0} → A → Act Bytes A
  pure a v = (ok a, v)

  -- The requirements' key and hash.
  unfoldable pub put_requirements : Block → Request → Act Bytes (Option String × String)
  unfolding put
  put_requirements block request =
      if formats.strip request.requirements_text == ""
      then pure (none, block.requirements_hash)
      else (do
        valid request.requirements_text
        put (block_key block.id request.version_id "requirements.txt")
            (formats.encode request.requirements_text)
        pure (
          some (block_key block.id request.version_id "requirements.txt"),
          requirements_hash request.requirements_text,
        ))

  unfoldable pub put_notebook : Block → Request → Act Bytes (Option String)
  unfolding put
  put_notebook block request = if not (truthy block.draft_notebook) then pure none else (do
    put (block_key block.id request.version_id "notebook.ipynb") (formats.dump block.draft_notebook)
    pure (some (block_key block.id request.version_id "notebook.ipynb")))

  abbrev pub row_of : Block → Request → Option String × String → Option String → BlockVersion
  row_of block request (requirements_path, req_hash) notebook_path = record {
    id = request.version_id;
    block_id = block.id;
    version_tag = request.version_tag;
    commit_message = request.commit_message;
    created_by = request.login_id;
    code_path = block_key block.id request.version_id "code.py";
    requirements_path = requirements_path;
    notebook_path = notebook_path;
    input_ports = block.input_ports;
    output_ports = block.output_ports;
    requirements_hash = req_hash;
    content_sha256 = formats.sha256_hex (formats.encode (text_or_empty block.draft_code));
    is_stable = request.set_stable;
  }

  abbrev pub stable_block : Block → String → String → Block
  stable_block block version_id req_hash = record block {
    stable_version_id = some version_id;
    requirements_hash = if req_hash == "" then block.requirements_hash else req_hash;
  }

  -- The rows in one transaction, which the caller commits if `auto_commit` is off.
  abbrev pub written : Block → Bool → BlockVersion → Vault Bytes → Vault Bytes
  written block auto_commit row v =
      if row.is_stable
      then (record v {
        versions = row ∷ clear_stable block.id v.versions;
        blocks = insert block.id (stable_block block row.id row.requirements_hash) v.blocks;
        is_committed = auto_commit;
      })
      else (record v { versions = row ∷ v.versions; is_committed = auto_commit })

  unfoldable pub commit_version : Block → Bool → BlockVersion → Act Bytes BlockVersion
  commit_version block auto_commit row v = elim database [
    | refuses ↦ (err (raised "DatabaseError"), v)
    | unrefreshed ↦ (err (raised "DatabaseError"), written block auto_commit row v)
    | answers ↦ (ok row, written block auto_commit row v)
  ]

  unfoldable pub create_block_version : Block → Request → Act Bytes BlockVersion
  unfolding put put_requirements put_notebook commit_version
  create_block_version block request = do
    put (block_key block.id request.version_id "code.py")
        (formats.encode (text_or_empty block.draft_code))
    requirements ← put_requirements block request
    notebook_path ← put_notebook block request
    commit_version block request.auto_commit (row_of block request requirements notebook_path)
