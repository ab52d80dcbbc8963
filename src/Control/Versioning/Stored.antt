-- ===== src/Control/Versioning/Stored.antt =====
-- What `create_block_version` stores before it writes a row
-- (backend/app/core/versioning/version_manager.py).
use Prim.Native.String.{◌++◌}
use text.Mathlib.TextLemmas.{append_cancel_left}
use python_flow_hub.Prelude.{
  String, ◌≡◌, refl, ◌∙◌, Bool, true, false, not, Option, some, none, Dict, lookup, insert,
  lookup-insert, ◌==◌, Result, ok, err, eq_iff, arith, Bool-cases, Result-cases, inl, inr, ◌⊎◌,
}
use python_flow_hub.Value.{truthy}
use python_flow_hub.Runtime.Errors.{Error, raised}
use python_flow_hub.Control.Versioning.{
  Formats, Block, BlockVersion, Vault, Request, Database, block_key, text_or_empty, Act, put,
  put_requirements, put_notebook, row_of, commit_version, create_block_version,
}

-- The three objects of a version have different keys.
block_key-injective :
    (block_id version_id f g : String)
    → block_key block_id version_id f ≡ block_key block_id version_id g
    → f ≡ g
block_key-injective block_id version_id f g e = append_cancel_left "/" f g (
    append_cancel_left version_id ("/" ++ f) ("/" ++ g) (
      append_cancel_left "/" _ _
        (append_cancel_left block_id _ _ (append_cancel_left "blocks/" _ _ e))))

module _ {Bytes : Type 0} where
  -- Objects are added only: what was there stays.
  abbrev pub Extends : Dict Bytes → Dict Bytes → Type 0
  Extends old new =
      (key : String) (bytes : Bytes) → lookup key old ≡ some bytes → lookup key new ≡ some bytes

  pub Extends-insert :
      (key : String) (bytes : Bytes) (objects : Dict Bytes)
      → lookup key objects ≡ none
      → Extends objects (insert key bytes objects)
  Extends-insert key bytes objects free k b h =
      ground (arith, lookup-insert key k bytes objects, eq_iff key k)

module _ {Bytes : Type 0} (formats : Formats Bytes) (requirements_hash : String → String)
    (validate : String → Result Error (Unit {0})) (up : Dict Bytes → Bool) (database : Database)
    (block : Block) (request : Request) where
  abbrev pub key : String → String
  key filename = block_key block.id request.version_id filename

  -- One object of the version was added at most.
  pub record Grew (filename : String) (old new : Dict Bytes) : Type 0 where
    pub extends : Extends old new
    pub elsewhere : (g : String) → (g == filename) ≡ false → lookup (key g) new ≡ lookup (key g) old

  pub Grew-refl : (filename : String) (objects : Dict Bytes) → Grew filename objects objects
  Grew-refl filename objects = record { extends = λ k b h. h; elsewhere = λ g other. refl }

  pub Grew-insert :
      (filename : String) (bytes : Bytes) (objects : Dict Bytes)
      → lookup (key filename) objects ≡ none
      → Grew filename objects (insert (key filename) bytes objects)
  Grew-insert filename bytes objects free = record {
    extends = Extends-insert (key filename) bytes objects free;
    elsewhere = λ g other.
        let apart : (key filename == key g) ≡ false = elim (Bool-cases (key filename == key g)) [
          | inl same ↦ ground (
            arith,
            block_key-injective block.id request.version_id filename g
                ((eq_iff (key filename) (key g)).0 same),
            eq_iff g filename,
          )
          | inr differ ↦ differ
        ] in
        ground (arith, lookup-insert (key filename) (key g) bytes objects);
  }

  abbrev pub has_requirements : Bool
  has_requirements = not (formats.strip request.requirements_text == "")

  -- An optional object, and its key.
  abbrev pub IsKept : Bool → String → Bytes → Option String → Dict Bytes → Type 0
  IsKept wanted filename bytes path objects =
      ((wanted ≡ false) × (path ≡ none))
      ⊎ ((wanted ≡ true)
          × (path ≡ some (key filename))
          × (lookup (key filename) objects ≡ some bytes))

  abbrev pub with_objects : Vault Bytes → Dict Bytes → Vault Bytes
  with_objects v objects = record v { objects = objects }

  abbrev pub stored_requirements : Act Bytes (Option String × String)
  stored_requirements =
      put_requirements formats requirements_hash validate up database block request

  abbrev pub stored_notebook : Act Bytes (Option String)
  stored_notebook = put_notebook formats requirements_hash validate up database block request

  pub put_requirements-IsKept :
      (v : Vault Bytes)
      → lookup (key "requirements.txt") v.objects ≡ none
      → ((e : Error) × (stored_requirements v ≡ (err e, v)))
        ⊎ ((path : Option String) × (h : String) × (o : Dict Bytes) × (stored_requirements v
              ≡ (ok (path, h), with_objects v o))
            × Grew "requirements.txt" v.objects o
            × IsKept has_requirements "requirements.txt"
                (formats.encode request.requirements_text)
                path
                o)
  unfolding put_requirements put
  put_requirements-IsKept v free =
      let text = request.requirements_text in
      let bytes = formats.encode text in
      elim (Bool-cases (formats.strip text == "")) [
        | inl blank ↦ inr (
          none,
          block.requirements_hash,
          v.objects,
          rw blank refl,
          Grew-refl "requirements.txt" v.objects,
          inl (rw blank refl, refl),
        )
        | inr written ↦ elim (Result-cases (validate text)) [
          | inr (e, refused) ↦ inl (e, rw (written, refused) refl)
          | inl (done, valid) ↦ elim (Bool-cases (up v.objects)) [
            | inr down ↦ inl (raised "PYFLOW_STORAGE_ERROR", rw (written, valid, down) refl)
            | inl answers ↦ inr (
              some (key "requirements.txt"),
              requirements_hash text,
              insert (key "requirements.txt") bytes v.objects,
              rw (written, valid, answers) refl,
              Grew-insert "requirements.txt" bytes v.objects free,
              inr (
                rw written refl,
                refl,
                ground (
                  arith,
                  lookup-insert (key "requirements.txt") (key "requirements.txt") bytes v.objects,
                  eq_iff (key "requirements.txt") (key "requirements.txt"),
                ),
              ),
            )
          ]
        ]
      ]

  pub put_notebook-IsKept :
      (v : Vault Bytes)
      → lookup (key "notebook.ipynb") v.objects ≡ none
      → ((e : Error) × (stored_notebook v ≡ (err e, v)))
        ⊎ ((path : Option String) × (o : Dict Bytes) × (stored_notebook v
              ≡ (ok path, with_objects v o))
            × Grew "notebook.ipynb" v.objects o
            × IsKept
                (truthy block.draft_notebook)
                "notebook.ipynb"
                (formats.dump block.draft_notebook)
                path
                o)
  unfolding put_notebook put
  put_notebook-IsKept v free =
      let bytes = formats.dump block.draft_notebook in
      elim (Bool-cases (truthy block.draft_notebook)) [
        | inr empty ↦ inr (
          none,
          v.objects,
          rw empty refl,
          Grew-refl "notebook.ipynb" v.objects,
          inl (empty, refl),
        )
        | inl full ↦ elim (Bool-cases (up v.objects)) [
          | inr down ↦ inl (raised "PYFLOW_STORAGE_ERROR", rw (full, down) refl)
          | inl answers ↦ inr (
            some (key "notebook.ipynb"),
            insert (key "notebook.ipynb") bytes v.objects,
            rw (full, answers) refl,
            Grew-insert "notebook.ipynb" bytes v.objects free,
            inr (
              full,
              refl,
              ground (
                arith,
                lookup-insert (key "notebook.ipynb") (key "notebook.ipynb") bytes v.objects,
                eq_iff (key "notebook.ipynb") (key "notebook.ipynb"),
              ),
            ),
          )
        ]
      ]

  -- Where the code of the version is stored.
  abbrev pub code_bytes : Bytes
  code_bytes = formats.encode (text_or_empty block.draft_code)

  -- What is stored when the rows are to be written.
  pub record IsStored (old new : Dict Bytes) (requirements_path notebook_path : Option String)
      : Type 0 where
    pub extends : Extends old new
    pub code : lookup (key "code.py") new ≡ some code_bytes
    pub requirements :
        IsKept has_requirements "requirements.txt"
          (formats.encode request.requirements_text)
          requirements_path
          new
    pub notebook :
        IsKept
          (truthy block.draft_notebook)
          "notebook.ipynb"
          (formats.dump block.draft_notebook)
          notebook_path
          new

  IsKept-Extends :
      (wanted : Bool) (filename : String) (bytes : Bytes) (path : Option String)
      (old new : Dict Bytes)
      → Extends old new
      → IsKept wanted filename bytes path old
      → IsKept wanted filename bytes path new
  IsKept-Extends wanted filename bytes path old new more (inl unwanted) = inl unwanted
  IsKept-Extends wanted filename bytes path old new more (inr (want, at, there)) =
      inr (want, at, more (key filename) bytes there)

  abbrev creation : Act Bytes BlockVersion
  creation = create_block_version formats requirements_hash validate up database block request

  -- The storage fails, or the rows are written over what was stored.
  pub create_block_version-IsStored :
      (v : Vault Bytes)
      → ((filename : String) → lookup (key filename) v.objects ≡ none)
      → (o : Dict Bytes) × Extends v.objects o
        × (((e : Error) × (creation v ≡ (err e, with_objects v o)))
            ⊎ ((path : Option String) × (h : String) × (notebook_path : Option String) × IsStored
                  v.objects o path notebook_path
                × (creation v
                    ≡ commit_version formats requirements_hash validate up database block
                        request.auto_commit
                        (row_of formats requirements_hash validate up database block request
                          (path, h)
                          notebook_path)
                        (with_objects v o))))
  unfolding create_block_version put
  create_block_version-IsStored v free = elim (Bool-cases (up v.objects)) [
    | inr down ↦ (v.objects, λ k b h. h, inl (raised "PYFLOW_STORAGE_ERROR", rw down refl))
    | inl answers ↦
        let o1 = insert (key "code.py") code_bytes v.objects in
        let g1 = Grew-insert "code.py" code_bytes v.objects (free "code.py") in
        let v1 = with_objects v o1 in
        elim (put_requirements-IsKept v1
          (g1.elsewhere "requirements.txt" refl ∙ free "requirements.txt")) [
            | inl (e, failed) ↦ (o1, g1.extends, inl (e, rw (answers, failed) refl))
            | inr (path, h, o2, ran2, g2, kept2) ↦
                let v2 = with_objects v o2 in
                elim (put_notebook-IsKept v2 (
                  g2.elsewhere "notebook.ipynb" refl
                  ∙ (g1.elsewhere "notebook.ipynb" refl ∙ free "notebook.ipynb"))) [
                    | inl (e, failed) ↦ (
                      o2,
                      λ k b at. g2.extends k b (g1.extends k b at),
                      inl (e, rw (answers, ran2, failed) refl),
                    )
                    | inr (notebook_path, o3, ran3, g3, kept3) ↦
                        let more = λ (k : String) (b : Bytes) (at : lookup k v.objects ≡ some b).
                          g3.extends k b (g2.extends k b (g1.extends k b at)) in
                        (
                          o3,
                          more,
                          inr (
                            path,
                            h,
                            notebook_path,
                            record {
                              extends = more;
                              code = g3.extends (key "code.py") code_bytes (
                                  g2.extends (key "code.py") code_bytes (
                                    ground (
                                      arith,
                                      lookup-insert (key "code.py") (key "code.py") code_bytes
                                          v.objects,
                                      eq_iff (key "code.py") (key "code.py"),
                                    )));
                              requirements =
                                  IsKept-Extends has_requirements "requirements.txt"
                                    (formats.encode request.requirements_text) path o2 o3 g3.extends
                                    kept2;
                              notebook = kept3;
                            },
                            rw (answers, ran2, ran3) refl,
                          ),
                        )
                  ]
          ]
  ]
