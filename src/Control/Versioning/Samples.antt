-- ===== src/Control/Versioning/Samples.antt =====
-- A block and its versions (backend/app/core/versioning/version_manager.py).
use mathlib.Core.List.{Memᴰ}
use mathlib.Core.List.Memᴰ.{not-nil}
use python_flow_hub.Prelude.{
  String, ◌≡◌, ◌↔◌, refl, Bool, true, false, Option, some, none, [], ◌∷◌, Dict, lookup, Result, ok,
}
use python_flow_hub.Value.{Value, null, text, truthy}
use python_flow_hub.Runtime.Errors.{Error}
use python_flow_hub.Control.Versioning.{
  Formats, Block, BlockVersion, Vault, Request, block_key, answers, create_block_version,
}
use python_flow_hub.Control.Versioning.Read.{
  get_block_version_content, FlowVersion, Counts, reconcile_orphans,
}
use python_flow_hub.Control.Versioning.Backed.{IsSound, IsEnded, create_block_version-IsSound}
use python_flow_hub.Control.Versioning.Content.{
  get_block_version_content-create, IsThere, IsIntact, reconcile_orphans-IsSound,
}
use python_flow_hub.Control.Versioning.Deletion.{
  delete_block_with_versions, delete_block_with_versions-Dangles,
}

data Bytes : Type 0 where
  utf8 : String → Bytes
  json : Value → Bytes

abbrev text_of : Bytes → String
text_of (utf8 s) = s
text_of (json v) = "json"

abbrev decoded : Bytes → Option String
decoded (utf8 s) = some s
decoded (json v) = none

abbrev loaded : Bytes → Option Value
loaded (utf8 s) = none
loaded (json v) = some v

abbrev formats : Formats Bytes
formats = record {
  encode = utf8;
  decode = decoded;
  dump = json;
  load = loaded;
  strip = λ s. s;
  sha256_hex = text_of;
  decode-encode = λ s. refl;
  load-dump = λ v. refl;
}

abbrev block : Block
block = record {
  id = "b1";
  draft_code = some "def run(inputs): return {}";
  draft_notebook = text "cells";
  input_ports = null;
  output_ports = null;
  requirements_hash = "";
  stable_version_id = none;
}

abbrev request : Request
request = record {
  version_id = "v1";
  version_tag = "1.0";
  commit_message = "";
  login_id = "ann";
  requirements_text = "numpy";
  set_stable = true;
  auto_commit = true;
}

abbrev empty : Vault Bytes
empty = record { objects = []; versions = []; blocks = ("b1", block) ∷ []; is_committed = true }

abbrev accept : String → Result Error (Unit {0})
accept s = ok tt

abbrev always : Dict Bytes → Bool
always objects = true

abbrev hash : String → String
hash s = s

empty-IsSound : IsSound formats empty
empty-IsSound = record {
  backed = λ r m. absurd (not-nil m);
  named = λ r m stable. absurd (not-nil m);
}

none_free : (f : String) → lookup (block_key block.id request.version_id f) empty.objects ≡ none
unfolding lookup
none_free f = refl

abbrev first : Result Error BlockVersion × Vault Bytes
first = create_block_version formats hash accept always answers block request empty

abbrev version : BlockVersion
version = record {
  id = "v1";
  block_id = "b1";
  version_tag = "1.0";
  commit_message = "";
  created_by = "ann";
  code_path = "blocks/b1/v1/code.py";
  requirements_path = some "blocks/b1/v1/requirements.txt";
  notebook_path = some "blocks/b1/v1/notebook.ipynb";
  input_ports = null;
  output_ports = null;
  requirements_hash = "numpy";
  content_sha256 = "def run(inputs): return {}";
  is_stable = true;
}

is_created : first.0 ≡ ok version
unfolding create_block_version lookup truthy
is_created = refl

create_block_version-IsSound_example :
    IsSound formats first.1
    × IsEnded formats hash accept always answers block request empty none_free first.0 first.1
create_block_version-IsSound_example =
    create_block_version-IsSound formats hash accept always answers block request empty none_free
      empty-IsSound

get_block_version_content-create_example :
    get_block_version_content formats first.1.objects version
    ≡ ok (record {
      code = "def run(inputs): return {}";
      requirements = some "numpy";
      notebook = some (text "cells");
    })
unfolding truthy
get_block_version_content-create_example =
    get_block_version_content-create formats hash accept always answers block request empty
      none_free version is_created

delete_block_with_versions-Dangles_example :
    (lookup "blocks/b1/v1/code.py"
        (delete_block_with_versions always "b1" false (record {
          objects = [];
          versions = version ∷ [];
          blocks = [];
          is_committed = true;
        })).objects
      ≡ none)
    × Memᴰ version
        (delete_block_with_versions always "b1" false (record {
          objects = [];
          versions = version ∷ [];
          blocks = [];
          is_committed = true;
        })).versions
delete_block_with_versions-Dangles_example =
    delete_block_with_versions-Dangles always (λ objects. refl) "b1"
      (record { objects = []; versions = version ∷ []; blocks = []; is_committed = true }) version
      (Memᴰ.head refl) refl refl false

abbrev counts : Counts
counts =
    reconcile_orphans formats first.1.objects first.1.versions
      (record { snapshot_path = "flows/f1/v1/snapshot.json" } ∷ [])

reconcile_orphans-IsSound_example :
    ((counts.missing_objects ≡ 0) ↔ (
      ((b : BlockVersion) → Memᴰ b first.1.versions → IsThere formats first.1.objects b.code_path)
      × ((f : FlowVersion)
          → Memᴰ f (record { snapshot_path = "flows/f1/v1/snapshot.json" } ∷ [])
          → IsThere formats first.1.objects f.snapshot_path)))
    × ((counts.corrupted ≡ 0)
        ↔ ((b : BlockVersion) → Memᴰ b first.1.versions → IsIntact formats first.1.objects b))
reconcile_orphans-IsSound_example =
    reconcile_orphans-IsSound formats first.1.objects first.1.versions
      (record { snapshot_path = "flows/f1/v1/snapshot.json" } ∷ [])
