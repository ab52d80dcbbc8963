-- ===== src/Control/Versioning/Deletion.antt =====
-- `delete_block_with_versions` (backend/app/core/versioning/version_manager.py) and the commit of its
-- caller.
use mathlib.Core.List.{Memᴰ}
use mathlib.Core.List.Memᴰ.{cases_cons, not-nil}
use python_flow_hub.Prelude.{
  remove, lookup-remove, String, ◌≡◌, sym, ◌∙◌, ap, Bool, true, false, not, Option, some, none,
  List, [], ◌∷◌, Dict, lookup, select, mem-select, ◌==◌, if◌then◌else◌, eq_iff, arith, inl, inr,
}
use python_flow_hub.Control.Versioning.{BlockVersion, Vault}

module _ {Bytes : Type 0} (up : Dict Bytes → Bool) where
  -- A failure to delete is passed over.
  unfoldable pub delete_object : String → Dict Bytes → Dict Bytes
  unfolding remove
  delete_object key objects = if up objects then remove key objects else objects

  -- `if key:`
  unfoldable pub delete_path : Option String → Dict Bytes → Dict Bytes
  unfolding delete_object
  delete_path none objects = objects
  delete_path (some key) objects = if key == "" then objects else delete_object key objects

  unfoldable pub delete_objects : List BlockVersion → Dict Bytes → Dict Bytes
  unfolding delete_path
  delete_objects [] objects = objects
  delete_objects (r ∷ rows) objects = delete_objects rows (
      delete_path r.notebook_path
        (delete_path r.requirements_path (delete_path (some r.code_path) objects)))

  -- The rows go only if the caller commits.
  unfoldable pub delete_block_with_versions :
      (block_id : String) → (commits : Bool) → Vault Bytes → Vault Bytes
  unfolding delete_objects remove
  delete_block_with_versions block_id commits v =
      let objects = delete_objects (select (λ r. r.block_id == block_id) v.versions) v.objects in
      if commits
      then (record {
        objects = objects;
        versions = select (λ r. not (r.block_id == block_id)) v.versions;
        blocks = remove block_id v.blocks;
        is_committed = true;
      })
      else record v { objects = objects }

  module _ (answers : (objects : Dict Bytes) → up objects ≡ true) where
    -- What is gone stays gone.
    delete_path-gone :
        (path : Option String) (k : String) (objects : Dict Bytes)
        → lookup k objects ≡ none
        → lookup k (delete_path path objects) ≡ none
    unfolding delete_path delete_object
    delete_path-gone none k objects gone = gone
    delete_path-gone (some key) k objects gone =
        ground (arith, gone, answers objects, lookup-remove key k objects)

    delete_path_self :
        (key : String) (objects : Dict Bytes)
        → (key == "") ≡ false
        → lookup key (delete_path (some key) objects) ≡ none
    unfolding delete_path delete_object
    delete_path_self key objects named =
        ground (arith, answers objects, lookup-remove key key objects, eq_iff key key)

    delete_objects-gone :
        (rows : List BlockVersion) (k : String) (objects : Dict Bytes)
        → lookup k objects ≡ none
        → lookup k (delete_objects rows objects) ≡ none
    unfolding delete_objects
    delete_objects-gone [] k objects gone = gone
    delete_objects-gone (r ∷ rows) k objects gone = delete_objects-gone rows k _ (
        delete_path-gone r.notebook_path k _ (
          delete_path-gone r.requirements_path k _
            (delete_path-gone (some r.code_path) k objects gone)))

    delete_objects_code :
        (rows : List BlockVersion) (r : BlockVersion) (objects : Dict Bytes)
        → Memᴰ r rows
        → (r.code_path == "") ≡ false
        → lookup r.code_path (delete_objects rows objects) ≡ none
    unfolding delete_objects
    delete_objects_code [] r objects m named = absurd (not-nil m)
    delete_objects_code (x ∷ rows) r objects m named = elim (cases_cons m) [
      | inl same ↦
          let path = ap (λ (y : BlockVersion). y.code_path) same in
          ap (λ (k : String). lookup k (delete_objects (x ∷ rows) objects)) path
          ∙ delete_objects-gone rows x.code_path _ (
              delete_path-gone x.notebook_path x.code_path _ (
                delete_path-gone x.requirements_path x.code_path _ (
                  delete_path_self x.code_path objects
                    (ap (λ (k : String). k == "") (sym path) ∙ named))))
      | inr later ↦ delete_objects_code rows r _ later named
    ]

    -- While the storage answers, the deletion of a block with its versions leaves the code of none
    -- of them, and no row of theirs if the caller commits; but if the commit fails, all rows stay,
    -- without their code.
    pub delete_block_with_versions-Dangles :
        (block_id : String) (v : Vault Bytes) (r : BlockVersion)
        → Memᴰ r v.versions
        → r.block_id ≡ block_id
        → (r.code_path == "") ≡ false
        → (commits : Bool)
        → (lookup r.code_path (delete_block_with_versions block_id commits v).objects ≡ none)
          × (if commits
              then ¬ Memᴰ r (delete_block_with_versions block_id commits v).versions
              else Memᴰ r (delete_block_with_versions block_id commits v).versions)
    unfolding delete_block_with_versions
    delete_block_with_versions-Dangles block_id v r m at named true = (
      delete_objects_code (select (λ (x : BlockVersion). x.block_id == block_id) v.versions) r
          v.objects
          ((mem-select (λ (x : BlockVersion). x.block_id == block_id) r v.versions).1
            (m, ground (arith, eq_iff r.block_id block_id)))
          named,
      λ kept.
          let (_, other) =
            (mem-select (λ (x : BlockVersion). not (x.block_id == block_id)) r v.versions).0 kept in
          ground (arith, eq_iff r.block_id block_id),
    )
    delete_block_with_versions-Dangles block_id v r m at named false = (
      delete_objects_code (select (λ (x : BlockVersion). x.block_id == block_id) v.versions) r
          v.objects
          ((mem-select (λ (x : BlockVersion). x.block_id == block_id) r v.versions).1
            (m, ground (arith, eq_iff r.block_id block_id)))
          named,
      m,
    )
