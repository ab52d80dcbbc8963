-- ===== src/Control/Import/Archive.antt =====
-- The limits of `parse_zip` (backend/app/core/flow/zip_import.py). The module zipfile is a parameter: the
-- entries of an archive, with the bytes that reading each of them gives.
use Prim.Native.String.{◌++◌}
use mathlib.Core.List.{Memᴰ}
use mathlib.Core.List.Memᴰ.{cases_cons, not-nil}
use python_flow_hub.Prelude.{
  ℕ, ◌+◌, ◌≤◌, ◌≡◌, ◌≢◌, ◌∙◌, ap, refl, sym, subst, String, Bool, true, false, not, ◌||◌, Option,
  none, some, List, [], ◌∷◌, Dict, lookup, insert, has_key, lookup-insert, contains, ltb, ◌==◌,
  if◌then◌else◌, starts_with, starts_with-append, eq_iff, arith, Bool-cases, inl, inr,
}

-- Python's functions on paths and bytes; `none` where they raise.
pub record Paths (Bytes : Type 0) : Type 0 where
  pub normpath : String → String
  pub split_slashes : String → List String
  pub ends_with_slash : String → Bool
  pub is_python : String → Bool
  pub decode_utf8 : Bytes → Option String
  pub decode_gbk : Bytes → Option String
  pub len : Bytes → ℕ

-- A `ZipInfo`, with the size that it declares, and the bytes that reading it gives.
pub record Entry (Bytes : Type 0) : Type 0 where
  pub filename : String
  pub is_dir : Bool
  pub file_size : ℕ
  pub raw : Bytes

-- The result, and what was read for it.
pub record ParsedZip (Bytes : Type 0) : Type 0 where
  pub scripts : Dict String
  pub resources : Dict String
  pub reads : List (Entry Bytes)

abbrev pub max_file_bytes : ℕ
max_file_bytes = 2097152

abbrev pub max_total_bytes : ℕ
max_total_bytes = 20971520

abbrev pub ignore_dirs : List String
ignore_dirs = "__pycache__" ∷ ".git" ∷ ".idea" ∷ ".vscode" ∷ "node_modules" ∷ ".venv" ∷ "venv" ∷ []

abbrev pub any_ignored : List String → Bool
any_ignored [] = false
any_ignored (p ∷ parts) = contains p ignore_dirs || any_ignored parts

module _ {Bytes : Type 0} (paths : Paths Bytes) where
  open paths use {normpath, split_slashes}

  unfoldable pub is_safe_path : String → Bool
  is_safe_path name =
      if name == "" || paths.ends_with_slash name
      then false
      else if starts_with "/" (normpath name)
          || (starts_with ".." (normpath name) || contains ".." (split_slashes (normpath name)))
      then false
      else not (any_ignored (split_slashes (normpath name)))

  abbrev pub decode_or : Option String → Bytes → String
  decode_or (some s) raw = s
  decode_or none raw = elim (paths.decode_gbk raw) [ none ↦ "<二进制文件，未解析为文本>" | some s ↦ s ]

  abbrev pub decode : Bytes → String
  decode raw = decode_or (paths.decode_utf8 raw) raw

  unfoldable pub store : Entry Bytes → ParsedZip Bytes → ParsedZip Bytes
  store info r =
      let name = normpath info.filename in
      if paths.is_python name
      then record r { scripts = insert name (decode info.raw) r.scripts; reads = info ∷ r.reads }
      else record r {
        resources = insert name (decode info.raw) r.resources;
        reads = info ∷ r.reads;
      }

  -- The loop over the entries.
  unfoldable pub parse_entries :
      List (Entry Bytes) → (total : ℕ) → ParsedZip Bytes → ParsedZip Bytes
  unfolding is_safe_path store
  parse_entries [] total r = r
  parse_entries (info ∷ infos) total r =
      let skipped = parse_entries infos total r in
      let taken = parse_entries infos (total + info.file_size) (store info r) in
      if info.is_dir || not (is_safe_path info.filename)
      then skipped
      else if ltb max_file_bytes info.file_size
      then skipped
      else if ltb max_total_bytes (total + info.file_size)
      then r
      else taken

  unfoldable pub parse_zip : List (Entry Bytes) → ParsedZip Bytes
  unfolding parse_entries
  parse_zip infos = parse_entries infos 0 (record { scripts = []; resources = []; reads = [] })

  -- The number of bytes that were read.
  abbrev pub total_read : List (Entry Bytes) → ℕ
  total_read [] = 0
  total_read (info ∷ infos) = paths.len info.raw + total_read infos

  -- zipfile reads no more of an entry than the size that it declares.
  abbrev pub IsCapped : List (Entry Bytes) → Type 0
  IsCapped infos = (info : Entry Bytes) → Memᴰ info infos → paths.len info.raw ≤ info.file_size

  -- The path leads neither out of the archive nor into a folder that is ignored.
  pub record IsInside (name : String) : Type 0 where
    pub relative : (rest : String) → normpath name ≢ "/" ++ rest
    pub below : (rest : String) → normpath name ≢ ".." ++ rest
    pub parts :
        (p : String)
        → Memᴰ p (split_slashes (normpath name))
        → (p ≢ "..") × ((q : String) → Memᴰ q ignore_dirs → p ≢ q)

  -- The key is the normal form of the name of an entry that was read.
  abbrev pub IsName : String → List (Entry Bytes) → Type 0
  IsName k infos = (info : Entry Bytes) × Memᴰ info infos × (normpath info.filename ≡ k)

  -- What was read is within the limits, has a path inside, and is all that the result is made of.
  pub record IsBounded (r : ParsedZip Bytes) : Type 0 where
    pub total : total_read r.reads ≤ max_total_bytes
    pub each :
        (info : Entry Bytes)
        → Memᴰ info r.reads
        → (paths.len info.raw ≤ max_file_bytes) × IsInside info.filename
    pub scripts : (k : String) → has_key k r.scripts ≡ true → IsName k r.reads
    pub resources : (k : String) → has_key k r.resources ≡ true → IsName k r.reads

  true-ne-false : {P : Type 0} → true ≡ false → P
  true-ne-false h = absurd (cc)

  contains-of : (p : String) (ps : List String) → Memᴰ p ps → contains p ps ≡ true
  contains-of p [] m = absurd (not-nil m)
  contains-of p (q ∷ ps) m = elim (cases_cons m) [
    | inl same ↦ ground (arith, eq_iff q p, sym same)
    | inr later ↦ ground (arith, contains-of p ps later)
  ]

  ignored-of :
      (p : String) (ps : List String)
      → Memᴰ p ps
      → contains p ignore_dirs ≡ true
      → any_ignored ps ≡ true
  ignored-of p [] m h = absurd (not-nil m)
  ignored-of p (q ∷ ps) m h = elim (cases_cons m) [
    | inl same ↦
        let here : contains q ignore_dirs ≡ true =
          subst (λ x. contains x ignore_dirs ≡ true) same h in
        rw here refl
    | inr later ↦ ground (arith, ignored-of p ps later h)
  ]

  is_safe_path-IsInside : (name : String) → is_safe_path name ≡ true → IsInside name
  unfolding is_safe_path
  is_safe_path-IsInside name safe =
      let rooted : starts_with "/" (normpath name) ≡ false = ground (arith, safe) in
      let above : starts_with ".." (normpath name) ≡ false = ground (arith, safe) in
      let dotted : contains ".." (split_slashes (normpath name)) ≡ false = ground (arith, safe) in
      let kept : any_ignored (split_slashes (normpath name)) ≡ false = ground (arith, safe) in
      record {
        relative = λ rest e.
            true-ne-false
              (sym (starts_with-append "/" rest) ∙ ap (starts_with "/") (sym e) ∙ rooted);
        below = λ rest e.
            true-ne-false
              (sym (starts_with-append ".." rest) ∙ ap (starts_with "..") (sym e) ∙ above);
        parts = λ p m. (
          λ e. true-ne-false (
              sym (
                contains-of ".." (split_slashes (normpath name))
                  (subst (λ x. Memᴰ x (split_slashes (normpath name))) e m))
              ∙ dotted),
          λ q bad e. true-ne-false (
              sym (
                ignored-of p (split_slashes (normpath name)) m (
                  subst (λ x. contains x ignore_dirs ≡ true) (sym e)
                    (contains-of q ignore_dirs bad)))
              ∙ kept),
        );
      }

  IsName-cons :
      (info : Entry Bytes) (k : String) (infos : List (Entry Bytes))
      → IsName k infos
      → IsName k (info ∷ infos)
  IsName-cons info k infos (x, m, e) = (x, Memᴰ.tail m, e)

  IsName-insert :
      (info : Entry Bytes) (s : String) (d : Dict String) (infos : List (Entry Bytes))
      → ((k : String) → has_key k d ≡ true → IsName k infos)
      → (k : String) → has_key k (insert (normpath info.filename) s d) ≡ true
      → IsName k (info ∷ infos)
  IsName-insert info s d infos old k h = elim (Bool-cases (normpath info.filename == k)) [
    | inl same ↦ (info, Memᴰ.head refl, (eq_iff (normpath info.filename) k).0 same)
    | inr other ↦
        IsName-cons info k infos
          (old k (ground (arith, lookup-insert (normpath info.filename) k s d, h)))
  ]

  store-IsBounded :
      (info : Entry Bytes) (r : ParsedZip Bytes)
      → IsBounded r
      → paths.len info.raw ≤ max_file_bytes
      → IsInside info.filename
      → total_read r.reads + paths.len info.raw ≤ max_total_bytes
      → IsBounded (store info r)
        × (total_read (store info r).reads ≡ total_read r.reads + paths.len info.raw)
  unfolding store
  store-IsBounded info r b small safe fits =
      let each = λ (x : Entry Bytes) (m : Memᴰ x (info ∷ r.reads)).
        elim (cases_cons m) as (λ c. (paths.len x.raw ≤ max_file_bytes) × IsInside x.filename) [
          | inl same ↦
              subst (λ (y : Entry Bytes). (paths.len y.raw ≤ max_file_bytes) × IsInside y.filename)
                (sym same) (small, safe)
          | inr later ↦ b.each x later
        ] in
      elim (Bool-cases (paths.is_python (normpath info.filename))) [
        | inl python ↦ rw python (
          record {
            total = omega arith;
            each = each;
            scripts = IsName-insert info _ r.scripts r.reads b.scripts;
            resources = λ k h. IsName-cons info k r.reads (b.resources k h);
          },
          omega arith,
        )
        | inr other ↦ rw other (
          record {
            total = omega arith;
            each = each;
            scripts = λ k h. IsName-cons info k r.reads (b.scripts k h);
            resources = IsName-insert info _ r.resources r.reads b.resources;
          },
          omega arith,
        )
      ]

  parse_entries-IsBounded :
      (infos : List (Entry Bytes)) (total : ℕ) (r : ParsedZip Bytes)
      → IsCapped infos
      → IsBounded r
      → total_read r.reads ≤ total
      → IsBounded (parse_entries infos total r)
  unfolding parse_entries
  parse_entries-IsBounded [] total r capped b counted = b
  parse_entries-IsBounded (info ∷ infos) total r capped b counted =
      let capped' : IsCapped infos = λ x m. capped x (Memᴰ.tail m) in
      let cap : paths.len info.raw ≤ info.file_size = capped info (Memᴰ.head refl) in
      let skipped = parse_entries-IsBounded infos total r capped' b counted in
      elim (Bool-cases (info.is_dir || not (is_safe_path info.filename))) [
        | inl passed ↦ rw passed skipped
        | inr safe ↦ elim (Bool-cases (ltb max_file_bytes info.file_size)) [
          | inl large ↦ rw (safe, large) skipped
          | inr small ↦ elim (Bool-cases (ltb max_total_bytes (total + info.file_size))) [
            | inl full ↦ rw (safe, small, full) b
            | inr fits ↦
                let (b', counted') =
                  store-IsBounded info r b (ground (arith, cap, small))
                    (is_safe_path-IsInside info.filename (ground arith))
                    (ground (arith, cap, counted, fits)) in
                rw (safe, small, fits)
                  (parse_entries-IsBounded infos (total + info.file_size) (store info r) capped' b'
                    (omega (arith, counted, counted', cap)))
          ]
        ]
      ]

  -- Of an archive of which no more is read than it declares: each entry that is read gives at most
  -- 2 MB, and all of them at most 20 MB together; its normal path is not absolute, does not begin
  -- with "..", and has no part that is ".." or an ignored folder; and every file of the result is
  -- one of them, under the normal form of its name.
  pub parse_zip-IsBounded :
      (infos : List (Entry Bytes)) → IsCapped infos → IsBounded (parse_zip infos)
  unfolding parse_zip lookup
  parse_zip-IsBounded infos capped =
      parse_entries-IsBounded infos 0 (record { scripts = []; resources = []; reads = [] }) capped
        (record {
          total = omega arith;
          each = λ info m. absurd (not-nil m);
          scripts = λ k h. absurd (cc);
          resources = λ k h. absurd (cc);
        })
        (omega arith)
