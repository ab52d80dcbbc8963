-- ===== src/Control/Versioning/Content.antt =====
-- What is read back from a version, and what the reconciliation finds
-- (backend/app/core/versioning/version_manager.py).
use mathlib.Core.Option.{none-ne-some}
use mathlib.Core.List.{Memᴰ}
use mathlib.Core.List.Memᴰ.{cases_cons, not-nil}
use python_flow_hub.Prelude.{
  String, ◌≡◌, ◌↔◌, Option-cases, refl, sym, ◌∙◌, ap, subst, Bool, true, false, Option, some, none,
  List, [], ◌∷◌, Dict, lookup, ◌==◌, if◌then◌else◌, Result, ok, err, ◌>>=◌, eq_iff, arith,
  Bool-cases, inl, inr,
}
use python_flow_hub.Value.{Value, truthy}
use python_flow_hub.Runtime.Errors.{Error}
use python_flow_hub.Control.Versioning.{
  Formats, Block, BlockVersion, Vault, Request, block_key, text_or_empty, commit_version,
  create_block_version, written, Database, Database-cases,
}
use python_flow_hub.Control.Versioning.Stored.{
  IsKept, IsStored, create_block_version-IsStored, has_requirements,
}
use python_flow_hub.Control.Versioning.Read.{
  Content, or_raise, get, get_text, get_requirements, get_notebook, get_block_version_content,
  count_missing, count_corrupted, count_missing_flows, FlowVersion, reconcile_orphans,
}

module _ {Bytes : Type 0} (formats : Formats Bytes) where
  abbrev pub IsThere : Dict Bytes → String → Type 0
  IsThere objects k = (bytes : Bytes) × (lookup k objects ≡ some bytes)

  -- The code of the version, if it is there, has the digest of its row.
  abbrev pub IsIntact : Dict Bytes → BlockVersion → Type 0
  IsIntact objects r =
      (bytes : Bytes)
      → lookup r.code_path objects ≡ some bytes
      → formats.sha256_hex bytes ≡ r.content_sha256

  count_missing-none :
      (objects : Dict Bytes) (rows : List BlockVersion)
      → (count_missing formats objects rows ≡ 0)
        ↔ ((r : BlockVersion) → Memᴰ r rows → IsThere objects r.code_path)
  unfolding count_missing
  count_missing-none objects [] = (λ h r m. absurd (not-nil m), λ h. refl)
  count_missing-none objects (r ∷ rows) =
      let (there, none_missing) = count_missing-none objects rows in
      elim (Option-cases (lookup r.code_path objects)) [
        | inl lost ↦ (
          λ h. absurd (ground (arith, lost, h)),
          λ h.
              let (bytes, at) = h r (Memᴰ.head refl) in absurd (none-ne-some bytes (sym lost ∙ at)),
        )
        | inr (bytes, at) ↦ (
          λ h x m. elim (cases_cons m) [
            | inl same ↦
                subst (λ (y : BlockVersion). IsThere objects y.code_path) (sym same) (bytes, at)
            | inr later ↦ there (ground (arith, at, h)) x later
          ],
          λ h. ground (arith, at, none_missing (λ x m. h x (Memᴰ.tail m))),
        )
      ]

  count_corrupted-none :
      (objects : Dict Bytes) (rows : List BlockVersion)
      → (count_corrupted formats objects rows ≡ 0)
        ↔ ((r : BlockVersion) → Memᴰ r rows → IsIntact objects r)
  unfolding count_corrupted
  count_corrupted-none objects [] = (λ h r m. absurd (not-nil m), λ h. refl)
  count_corrupted-none objects (r ∷ rows) =
      let (intact, none_bad) = count_corrupted-none objects rows in
      (
        λ h x m. elim (cases_cons m) [
          | inl same ↦ subst (IsIntact objects) (sym same) (λ bytes at.
              (eq_iff (formats.sha256_hex bytes) r.content_sha256).0 (ground (arith, (rw at at h))))
          | inr later ↦ intact (omega (arith, h)) x later
        ],
        λ h. elim (Option-cases (lookup r.code_path objects)) [
          | inl lost ↦ rw lost (omega (arith, none_bad (λ x m. h x (Memᴰ.tail m))))
          | inr (bytes, at) ↦ rw at (
              ground (
                arith,
                none_bad (λ x m. h x (Memᴰ.tail m)),
                h r (Memᴰ.head refl) bytes at,
                eq_iff (formats.sha256_hex bytes) r.content_sha256,
              ))
        ],
      )

  count_missing_flows-none :
      (objects : Dict Bytes) (flows : List FlowVersion)
      → (count_missing_flows formats objects flows ≡ 0)
        ↔ ((f : FlowVersion) → Memᴰ f flows → IsThere objects f.snapshot_path)
  unfolding count_missing_flows
  count_missing_flows-none objects [] = (λ h r m. absurd (not-nil m), λ h. refl)
  count_missing_flows-none objects (f ∷ flows) =
      let (there, none_missing) = count_missing_flows-none objects flows in
      elim (Option-cases (lookup f.snapshot_path objects)) [
        | inl lost ↦ (
          λ h. absurd (ground (arith, lost, h)),
          λ h.
              let (bytes, at) = h f (Memᴰ.head refl) in absurd (none-ne-some bytes (sym lost ∙ at)),
        )
        | inr (bytes, at) ↦ (
          λ h x m. elim (cases_cons m) [
            | inl same ↦
                subst (λ (y : FlowVersion). IsThere objects y.snapshot_path) (sym same) (bytes, at)
            | inr later ↦ there (ground (arith, at, h)) x later
          ],
          λ h. ground (arith, at, none_missing (λ x m. h x (Memᴰ.tail m))),
        )
      ]

  -- The reconciliation counts no missing object exactly if every version of a block has its code
  -- in the storage and every version of a flow its snapshot, and no corrupted one exactly if every
  -- code that is there has the digest of its row.
  pub reconcile_orphans-IsSound :
      (objects : Dict Bytes) (rows : List BlockVersion) (flows : List FlowVersion)
      → let r = reconcile_orphans formats objects rows flows in
        ((r.missing_objects ≡ 0) ↔ (
          ((b : BlockVersion) → Memᴰ b rows → IsThere objects b.code_path)
          × ((f : FlowVersion) → Memᴰ f flows → IsThere objects f.snapshot_path)))
        × ((r.corrupted ≡ 0) ↔ ((b : BlockVersion) → Memᴰ b rows → IsIntact objects b))
  unfolding reconcile_orphans
  reconcile_orphans-IsSound objects rows flows =
      let (there, back) = count_missing-none objects rows in
      let (there', back') = count_missing_flows-none objects flows in
      (
        (
          λ h. (there (omega (arith, h)), there' (omega (arith, h))),
          λ (blocks_there, flows_there). omega (arith, back blocks_there, back' flows_there),
        ),
        count_corrupted-none objects rows,
      )

  get_found :
      (objects : Dict Bytes) (k : String) (bytes : Bytes)
      → lookup k objects ≡ some bytes
      → get formats objects k ≡ ok bytes
  unfolding get
  get_found objects k bytes at = rw (at, get) refl

  text_back :
      (objects : Dict Bytes) (k s : String)
      → lookup k objects ≡ some (formats.encode s)
      → get_text formats objects k ≡ ok s
  unfolding get_text
  text_back objects k s at =
      ap (λ (r : Result Error Bytes). r >>= λ bytes. or_raise (formats.decode bytes))
        (get_found objects k (formats.encode s) at)
      ∙ ap (λ (o : Option String). or_raise o) (formats.decode-encode s)

module _ {Bytes : Type 0} (formats : Formats Bytes) (requirements_hash : String → String)
    (validate : String → Result Error (Unit {0})) (up : Dict Bytes → Bool) (database : Database)
    (block : Block) (request : Request) (v : Vault Bytes)
    (fresh : (filename : String)
      → lookup (block_key block.id request.version_id filename) v.objects ≡ none) where
  abbrev pub created : Result Error BlockVersion × Vault Bytes
  created = create_block_version formats requirements_hash validate up database block request v

  -- The code of the block, the requirements unless they are blank, and the notebook if there is one.
  abbrev pub expected : Content
  expected = record {
    code = text_or_empty block.draft_code;
    requirements =
        if formats.strip request.requirements_text == ""
        then none
        else some request.requirements_text;
    notebook = if truthy block.draft_notebook then some block.draft_notebook else none;
  }

  requirements_back :
      (o : Dict Bytes) (path : Option String)
      → IsKept formats requirements_hash validate up database block request
          (has_requirements formats requirements_hash validate up database block request)
          "requirements.txt"
          (formats.encode request.requirements_text)
          path
          o
      → get_requirements formats o path ≡ ok expected.requirements
  unfolding get_requirements
  requirements_back o path (inl (blank, at)) =
      let is_blank : (formats.strip request.requirements_text == "") ≡ true = ground arith in
      ap (get_requirements formats o) at
      ∙ ap (λ (b : Bool). ok (if b then none else some request.requirements_text)) (sym is_blank)
  requirements_back o path (inr (written, at, there)) =
      let not_blank : (formats.strip request.requirements_text == "") ≡ false = ground arith in
      ap (get_requirements formats o) at
      ∙ (ap (λ (r : Result Error String). r >>= λ text. ok (some text))
            (text_back formats o _ request.requirements_text there)
          ∙ ap (λ (b : Bool). ok (if b then none else some request.requirements_text))
              (sym not_blank))

  notebook_back :
      (o : Dict Bytes) (path : Option String)
      → IsKept formats requirements_hash validate up database block request
          (truthy block.draft_notebook)
          "notebook.ipynb"
          (formats.dump block.draft_notebook)
          path
          o
      → get_notebook formats o path ≡ ok expected.notebook
  unfolding get_notebook
  notebook_back o path (inl (empty, at)) =
      ap (get_notebook formats o) at
      ∙ ap (λ (b : Bool). ok (if b then some block.draft_notebook else none)) (sym empty)
  notebook_back o path (inr (full, at, there)) =
      ap (get_notebook formats o) at
      ∙ (ap
            (λ (r : Result Error Bytes).
              r >>= λ bytes. or_raise (formats.load bytes) >>= λ notebook. ok (some notebook))
            (get_found formats o _ (formats.dump block.draft_notebook) there)
          ∙ (ap (λ (n : Option Value). or_raise n >>= λ notebook. ok (some notebook))
                (formats.load-dump block.draft_notebook)
              ∙ ap (λ (b : Bool). ok (if b then some block.draft_notebook else none)) (sym full)))

  content_back :
      (o : Dict Bytes) (row : BlockVersion)
      → IsStored formats requirements_hash validate up database block request v.objects o
          row.requirements_path row.notebook_path
      → row.code_path ≡ block_key block.id request.version_id "code.py"
      → row.content_sha256 ≡ formats.sha256_hex (formats.encode (text_or_empty block.draft_code))
      → get_block_version_content formats o row ≡ ok expected
  unfolding get_block_version_content
  content_back o row stored at sha =
      let code = formats.encode (text_or_empty block.draft_code) in
      let same : (formats.sha256_hex code == row.content_sha256) ≡ true =
        ground (arith, sym sha, eq_iff (formats.sha256_hex code) row.content_sha256) in
      let found =
        get_found formats o row.code_path code (ap (λ (k : String). lookup k o) at ∙ stored.code) in
      rw
        (
          found,
          same,
          formats.decode-encode (text_or_empty block.draft_code),
          requirements_back o row.requirements_path stored.requirements,
          notebook_back o row.notebook_path stored.notebook,
        )
        refl

  abbrev commit : BlockVersion → Vault Bytes → Result Error BlockVersion × Vault Bytes
  commit = commit_version formats requirements_hash validate up database block request.auto_commit

  written-objects :
      (row : BlockVersion) (w : Vault Bytes)
      → (written formats requirements_hash validate up database block request.auto_commit row
          w).objects
        ≡ w.objects
  written-objects row w = elim (Bool-cases row.is_stable) [
    | inl stable ↦ rw stable refl
    | inr draft ↦ rw draft refl
  ]

  commit_objects : (row : BlockVersion) (w : Vault Bytes) → (commit row w).1.objects ≡ w.objects
  unfolding commit_version
  commit_objects row w = elim (Database-cases database) [
    | inl e ↦ rw (e, commit_version) refl
    | inr (inl e) ↦ rw (e, commit_version) (written-objects row w)
    | inr (inr e) ↦ rw (e, commit_version) (written-objects row w)
  ]

  abbrev or_row : BlockVersion → Result Error BlockVersion → BlockVersion
  or_row default (ok row) = row
  or_row default (err e) = default

  row-or_row : (row : BlockVersion) (w : Vault Bytes) → row ≡ or_row row (commit row w).0
  unfolding commit_version
  row-or_row row w = elim (Database-cases database) [
    | inl e ↦ rw (e, commit_version) refl
    | inr (inl e) ↦ rw (e, commit_version) refl
    | inr (inr e) ↦ rw (e, commit_version) refl
  ]

  commit_row : (row r : BlockVersion) (w : Vault Bytes) → (commit row w).0 ≡ ok r → row ≡ r
  commit_row row r w done = row-or_row row w ∙ ap (or_row row) done

  -- A version that was created with a new id is read back whole: the code of the block, the
  -- requirements unless they are blank, and the notebook if the block has one.
  pub get_block_version_content-create :
      (row : BlockVersion)
      → created.0 ≡ ok row
      → get_block_version_content formats created.1.objects row ≡ ok expected
  get_block_version_content-create row done =
      let (o, more, ended) =
        create_block_version-IsStored formats requirements_hash validate up database block request v
          fresh in
      let result = λ (x : Result Error BlockVersion × Vault Bytes). x.0 in
      elim ended [
        | inl (e, ran) ↦ absurd (ground (arith, sym (ap result ran) ∙ done))
        | inr (path, h, notebook_path, stored, ran) ↦
            let objects =
              ap (λ (x : Result Error BlockVersion × Vault Bytes). x.1.objects) ran
              ∙ commit_objects _ _ in
            ap (λ (x : Dict Bytes). get_block_version_content formats x row) objects
            ∙ subst (λ (r : BlockVersion). get_block_version_content formats o r ≡ ok expected)
                (commit_row _ row _ (sym (ap result ran) ∙ done))
                (content_back o _ stored refl refl)
      ]
