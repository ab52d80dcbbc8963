-- ===== src/Control/Versioning/Backed.antt =====
-- Every row of a version has its object, and a block has one stable version at most
-- (backend/app/core/versioning/version_manager.py).
use mathlib.Core.List.{Memᴰ}
use mathlib.Core.List.Memᴰ.{cases_cons, not-nil}
use python_flow_hub.Prelude.{
  String, ◌≡◌, refl, sym, ◌∙◌, ap, subst, Bool, true, false, ◌&&◌, some, none, List, [], ◌∷◌, Dict,
  lookup, insert, lookup-insert, ◌==◌, if◌then◌else◌, Result, ok, err, eq_iff, arith, Bool-cases,
  inl, inr, ◌⊎◌,
}
use python_flow_hub.Runtime.Errors.{Error}
use python_flow_hub.Control.Versioning.Stored.{Extends, create_block_version-IsStored}
use python_flow_hub.Control.Versioning.{
  Formats, Block, BlockVersion, Vault, Request, block_key, clear_stable, stable_block,
  commit_version, create_block_version, written, Database, Database-cases, unrefreshed,
}

module _ {Bytes : Type 0} (formats : Formats Bytes) where
  abbrev pub IsBacked : Dict Bytes → BlockVersion → Type 0
  IsBacked objects r =
      (bytes : Bytes) × (lookup r.code_path objects ≡ some bytes)
      × (formats.sha256_hex bytes ≡ r.content_sha256)

  -- The version is the one that its block's row names.
  abbrev pub IsNamed : Dict Block → BlockVersion → Type 0
  IsNamed blocks r =
      (b : Block) × (lookup r.block_id blocks ≡ some b) × (b.stable_version_id ≡ some r.id)

  pub record IsSound (v : Vault Bytes) : Type 0 where
    pub backed : (r : BlockVersion) → Memᴰ r v.versions → IsBacked v.objects r
    pub named : (r : BlockVersion) → Memᴰ r v.versions → r.is_stable ≡ true → IsNamed v.blocks r

  -- A row after the flags of a block were cleared.
  record IsCleared (block_id : String) (old r : BlockVersion) : Type 0 where
    code_path : r.code_path ≡ old.code_path
    content_sha256 : r.content_sha256 ≡ old.content_sha256
    same_block : r.block_id ≡ old.block_id
    same_id : r.id ≡ old.id
    stays : r.is_stable ≡ true → (old.is_stable ≡ true) × ((old.block_id == block_id) ≡ false)

  IsCleared-row :
      (block_id : String) (x : BlockVersion)
      → IsCleared block_id x
          (if x.block_id == block_id && x.is_stable then record x { is_stable = false } else x)
  IsCleared-row block_id x = elim (Bool-cases (x.block_id == block_id && x.is_stable)) [
    | inl cleared ↦ rw cleared (record {
      code_path = refl;
      content_sha256 = refl;
      same_block = refl;
      same_id = refl;
      stays = λ h. absurd (cc);
    })
    | inr kept ↦ rw kept (record {
      code_path = refl;
      content_sha256 = refl;
      same_block = refl;
      same_id = refl;
      stays = λ h. (h, ground arith);
    })
  ]

  mem-clear_stable :
      (block_id : String) (rows : List BlockVersion) (r : BlockVersion)
      → Memᴰ r (clear_stable block_id rows)
      → (old : BlockVersion) × Memᴰ old rows × IsCleared block_id old r
  mem-clear_stable block_id [] r m = absurd (not-nil m)
  mem-clear_stable block_id (x ∷ rows) r m = elim (cases_cons m) [
    | inl same ↦
        (x, Memᴰ.head refl, subst (IsCleared block_id x) (sym same) (IsCleared-row block_id x))
    | inr later ↦
        let (old, mo, c) = mem-clear_stable block_id rows r later in (old, Memᴰ.tail mo, c)
  ]

  IsBacked-Extends :
      (old new : Dict Bytes) (r : BlockVersion) → Extends old new → IsBacked old r → IsBacked new r
  IsBacked-Extends old new r more (bytes, at, sha) = (bytes, more r.code_path bytes at, sha)

  IsSound-extend :
      (v : Vault Bytes) (o : Dict Bytes)
      → Extends v.objects o
      → IsSound v
      → IsSound (record v { objects = o })
  IsSound-extend v o more sound = record {
    backed = λ r m. IsBacked-Extends v.objects o r more (sound.backed r m);
    named = sound.named;
  }

  -- A row of a stable version, and its block, over the rows that were there.
  IsSound-insert :
      (v : Vault Bytes) (block_id : String) (row : BlockVersion) (b : Block)
      → IsSound v
      → IsBacked v.objects row
      → row.block_id ≡ block_id
      → b.stable_version_id ≡ some row.id
      → IsSound (record v {
        versions = row ∷ clear_stable block_id v.versions;
        blocks = insert block_id b v.blocks;
      })
  IsSound-insert v block_id row b sound there at_block names = record {
    backed = λ r m. elim (cases_cons m) [
      | inl same ↦ subst (IsBacked v.objects) (sym same) there
      | inr later ↦
          let (old, mo, c) = mem-clear_stable block_id v.versions r later in
          let (bytes, at, sha) = sound.backed old mo in
          (
            bytes,
            ap (λ (k : String). lookup k v.objects) c.code_path ∙ at,
            sha ∙ sym c.content_sha256,
          )
    ];
    named = λ r m stable. elim (cases_cons m) [
      | inl same ↦ subst (IsNamed (insert block_id b v.blocks)) (sym same) (
        b,
        ground (
          arith,
          lookup-insert block_id row.block_id b v.blocks,
          eq_iff row.block_id row.block_id,
        ),
        names,
      )
      | inr later ↦
          let (old, mo, c) = mem-clear_stable block_id v.versions r later in
          let (was, apart) = c.stays stable in
          let (b', at, names') = sound.named old mo was in
          (
            b',
            ap (λ (k : String). lookup k (insert block_id b v.blocks)) c.same_block
                ∙ ground (
                  arith,
                  lookup-insert block_id old.block_id b v.blocks,
                  eq_iff row.block_id old.block_id,
                  eq_iff old.block_id row.block_id,
                ),
            names' ∙ ap (λ (i : String). some i) (sym c.same_id),
          )
    ];
  }

  IsSound-cons :
      (v : Vault Bytes) (row : BlockVersion)
      → IsSound v
      → IsBacked v.objects row
      → row.is_stable ≡ false
      → IsSound (record v { versions = row ∷ v.versions })
  IsSound-cons v row sound there draft = record {
    backed = λ r m. elim (cases_cons m) [
      | inl same ↦ subst (IsBacked v.objects) (sym same) there
      | inr later ↦ sound.backed r later
    ];
    named = λ r m stable. elim (cases_cons m) [
      | inl same ↦ absurd (ground (arith, ap (λ (x : BlockVersion). x.is_stable) same))
      | inr later ↦ sound.named r later stable
    ];
  }

module _ {Bytes : Type 0} (formats : Formats Bytes) (requirements_hash : String → String)
    (validate : String → Result Error (Unit {0})) (up : Dict Bytes → Bool) (database : Database)
    (block : Block) (request : Request) (v : Vault Bytes)
    (fresh : (filename : String)
      → lookup (block_key block.id request.version_id filename) v.objects ≡ none) where
  abbrev pub created : Result Error BlockVersion × Vault Bytes
  created = create_block_version formats requirements_hash validate up database block request v

  -- The row of the version is there, and committed if it was to be.
  abbrev pub IsWritten : BlockVersion → Vault Bytes → Type 0
  IsWritten row v' =
      Memᴰ row v'.versions
      × (row.id ≡ request.version_id)
      × (row.block_id ≡ block.id)
      × (v'.is_committed ≡ request.auto_commit)

  -- The row that is returned was written. After a failure the rows are as they were, unless it was
  -- the refresh that failed.
  abbrev pub IsEnded : Result Error BlockVersion → Vault Bytes → Type 0
  IsEnded (ok row) v' = IsWritten row v'
  IsEnded (err e) v' =
      ((v'.versions ≡ v.versions) × (v'.blocks ≡ v.blocks) × (v'.is_committed ≡ v.is_committed))
      ⊎ ((database ≡ unrefreshed) × ((row : BlockVersion) × IsWritten row v'))

  abbrev rows : BlockVersion → Vault Bytes → Vault Bytes
  rows = written formats requirements_hash validate up database block request.auto_commit

  rows-IsSound :
      (o : Dict Bytes) (row : BlockVersion)
      → IsSound formats (record v { objects = o })
      → IsBacked formats o row
      → row.block_id ≡ block.id
      → row.id ≡ request.version_id
      → IsSound formats (rows row (record v { objects = o }))
        × IsWritten row (rows row (record v { objects = o }))
  rows-IsSound o row sound there at named =
      let w : Vault Bytes = record v { objects = o } in
      let b =
        stable_block formats requirements_hash validate up database block row.id
          row.requirements_hash in
      let stable : Vault Bytes = record w {
        versions = row ∷ clear_stable block.id w.versions;
        blocks = insert block.id b w.blocks;
        is_committed = request.auto_commit;
      } in
      let draft : Vault Bytes = record w {
        versions = row ∷ w.versions;
        is_committed = request.auto_commit;
      } in
      let goal = λ (x : Vault Bytes). IsSound formats x × IsWritten row x in
      let chosen = λ (c : Bool). if c then stable else draft in
      elim (Bool-cases row.is_stable) [
        | inl e ↦
            let s = IsSound-insert formats w block.id row b sound there at refl in
            subst goal (sym (ap chosen e))
              (record { backed = s.backed; named = s.named }, (Memᴰ.head refl, named, at, refl))
        | inr e ↦
            let s = IsSound-cons formats w row sound there e in
            subst goal (sym (ap chosen e))
              (record { backed = s.backed; named = s.named }, (Memᴰ.head refl, named, at, refl))
      ]

  commit_version-IsSound :
      (o : Dict Bytes) (row : BlockVersion)
      → IsSound formats (record v { objects = o })
      → IsBacked formats o row
      → row.block_id ≡ block.id
      → row.id ≡ request.version_id
      → let r =
          commit_version formats requirements_hash validate up database block request.auto_commit
            row
            (record v { objects = o }) in
        IsSound formats r.1 × IsEnded r.0 r.1
  unfolding commit_version
  commit_version-IsSound o row sound there at named =
      let (s, w) = rows-IsSound o row sound there at named in
      elim (Database-cases database) [
        | inl e ↦ rw (e, commit_version) (sound, inl (refl, refl, refl))
        | inr (inl e) ↦ rw (e, commit_version) (s, inr (refl, (row, w)))
        | inr (inr e) ↦ rw (e, commit_version) (s, w)
      ]

  -- Whatever fails, and with a new id, every version in the database has its code in the storage
  -- with the digest of its row, and a stable version is the one that its block names, if it was so
  -- before. The version that is returned is in the database, committed if `auto_commit` is on. If
  -- the creation failed, the rows are as they were; or only the refresh of the row failed, and the
  -- version is in the database all the same.
  pub create_block_version-IsSound :
      IsSound formats v → IsSound formats created.1 × IsEnded created.0 created.1
  create_block_version-IsSound sound =
      let (o, more, ended) =
        create_block_version-IsStored formats requirements_hash validate up database block request v
          fresh in
      let extended = IsSound-extend formats v o more sound in
      elim ended [
        | inl (e, ran) ↦ rw ran (extended, inl (refl, refl, refl))
        | inr (path, h, notebook_path, stored, ran) ↦
            rw ran (commit_version-IsSound o _ extended (_, stored.code, refl) refl refl)
      ]
