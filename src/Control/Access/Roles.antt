-- ===== src/Control/Access/Roles.antt =====
-- When `require_role` and `require_resource_access` (backend/app/auth/rbac.py) let a user pass.
use mathlib.Core.List.{Memᴰ}
use mathlib.Core.List.Memᴰ.{cases_cons, not-nil}
use python_flow_hub.Prelude.{
  ℕ, String, ◌≡◌, ◌↔◌, ◌≤◌, refl, sym, ◌∙◌, ap, Bool, true, false, not, some, List, [], ◌∷◌, ltb,
  leb, ◌==◌, if◌then◌else◌, ok, eq_iff, arith, Bool-cases, Option-cases, inl, inr, ◌⊎◌,
}
use python_flow_hub.Control.Access.{
  Role, viewer, editor, deployer, admin, rank, role_of, Settings, UserRole, roles_of_rows,
  or_viewer, add_if, get_user_roles, max_rank, require_role,
}

module _ (settings : Settings) (rows : List UserRole) (login_id : String) where
  -- Some row of the user names a role of at least a rank.
  abbrev pub HasRow : ℕ → List UserRole → Type 0
  HasRow n us =
      (row : UserRole) × (r : Role) × Memᴰ row us
      × (row.login_id ≡ login_id)
      × (role_of row.role ≡ some r)
      × (n ≤ rank r)

  row_of_max :
      (n : ℕ) (us : List UserRole) → 1 ≤ n → n ≤ max_rank (roles_of_rows login_id us) → HasRow n us
  unfolding max_rank roles_of_rows
  row_of_max n [] pos h = absurd (omega arith)
  row_of_max n (u ∷ us) pos h = elim (Bool-cases (u.login_id == login_id)) [
    | inr other ↦ later us (row_of_max n us pos (rw other at h))
    | inl mine ↦ elim (Option-cases (role_of u.role)) [
      | inl unknown ↦ later us (row_of_max n us pos (rw (mine, unknown) at h))
      | inr (r, named) ↦ elim (Bool-cases (leb n (rank r))) [
        | inl high ↦
            (u, r, Memᴰ.head refl, (eq_iff u.login_id login_id).0 mine, named, ground arith)
        | inr low ↦
            let h' : n ≤ max_rank (r ∷ roles_of_rows login_id us) = rw (mine, named) at h in
            later us (row_of_max n us pos (ground arith))
      ]
    ]
  ]
    where
      later : (vs : List UserRole) → HasRow n vs → HasRow n (u ∷ vs)
      later vs (row, r, m, at, named, high) = (row, r, Memᴰ.tail m, at, named, high)

  max_of_row : (n : ℕ) (us : List UserRole) → HasRow n us → n ≤ max_rank (roles_of_rows login_id us)
  unfolding max_rank roles_of_rows
  max_of_row n [] (row, r, m, _, _, _) = absurd (not-nil m)
  max_of_row n (u ∷ us) (row, r, m, at, named, high) = elim (cases_cons m) [
    | inl same ↦
        let mine : (u.login_id == login_id) ≡ true =
          ground (
            arith,
            eq_iff u.login_id login_id,
            sym (ap (λ (x : UserRole). x.login_id) same) ∙ at,
          ) in
        let role : role_of u.role ≡ some r =
          ap (λ (x : UserRole). role_of x.role) (sym same) ∙ named in
        rw (mine, role) (ground (arith, high))
    | inr in_rest ↦
        let rest = max_of_row n us (row, r, in_rest, at, named, high) in
        elim (Bool-cases (u.login_id == login_id)) [
          | inr other ↦ rw other rest
          | inl mine ↦ elim (Option-cases (role_of u.role)) [
            | inl unknown ↦ rw (mine, unknown) rest
            | inr (r', role) ↦ rw (mine, role) (ground (arith, rest))
          ]
        ]
  ]

rank-le : (r : Role) → (1 ≤ rank r) × (rank r ≤ 4)
rank-le viewer = (omega arith, omega arith)
rank-le editor = (omega arith, omega arith)
rank-le deployer = (omega arith, omega arith)
rank-le admin = (omega arith, omega arith)

max_rank-le : (roles : List Role) → max_rank roles ≤ 4
unfolding max_rank
max_rank-le [] = omega arith
max_rank-le (r ∷ roles) = ground (arith, rank-le r, max_rank-le roles)

max_rank-add_if :
    (b : Bool) (roles : List Role) → max_rank (add_if b roles) ≡ (if b then 4 else max_rank roles)
unfolding max_rank
max_rank-add_if false roles = refl
max_rank-add_if true roles = ground (arith, max_rank-le roles)

max_rank-or_viewer :
    (roles : List Role)
    → max_rank (or_viewer roles) ≡ (if ltb (max_rank roles) 1 then 1 else max_rank roles)
unfolding max_rank
max_rank-or_viewer [] = refl
max_rank-or_viewer (r ∷ roles) = ground (arith, rank-le r)

module _ (settings : Settings) (rows : List UserRole) where
  -- The user is entitled to a role: everyone to that of a viewer, and everyone if the checks are
  -- off, the first administrator, and a user with a row of at least that rank.
  abbrev pub IsEntitled : Role → String → Type 0
  IsEntitled min_role login_id =
      (min_role ≡ viewer)
      ⊎ ((settings.auth_enabled ≡ false)
          ⊎ ((login_id ≡ settings.bootstrap_admin)
              ⊎ HasRow settings rows login_id (rank min_role) rows))

  max_rank_eq :
      (login_id : String)
      → max_rank (get_user_roles settings rows login_id) ≡ (
          let own = max_rank (roles_of_rows login_id rows) in
          let own' =
            if not settings.auth_enabled
            then 4
            else if login_id == settings.bootstrap_admin
            then 4
            else own in
          if ltb own' 1 then 1 else own')
  unfolding get_user_roles
  max_rank_eq login_id =
      let roles = roles_of_rows login_id rows in
      let boot = login_id == settings.bootstrap_admin in
      let off = not settings.auth_enabled in
      max_rank-or_viewer (add_if off (add_if boot roles))
      ∙ ap (λ (n : ℕ). if ltb n 1 then 1 else n)
          (max_rank-add_if off (add_if boot roles)
            ∙ ap (λ (n : ℕ). if off then 4 else n) (max_rank-add_if boot roles))

  IsEntitled-above :
      (min_role : Role) (login_id : String)
      → 2 ≤ rank min_role
      → rank min_role ≤ max_rank (get_user_roles settings rows login_id)
      → IsEntitled min_role login_id
  IsEntitled-above min_role login_id two h =
      let all = max_rank_eq login_id in
      elim (Bool-cases settings.auth_enabled) [
        | inr off ↦ inr (inl off)
        | inl on ↦ elim (Bool-cases (login_id == settings.bootstrap_admin)) [
          | inl boot ↦ inr (inr (inl ((eq_iff login_id settings.bootstrap_admin).0 boot)))
          | inr other ↦ inr (
              inr (
                inr (
                  row_of_max settings rows login_id (rank min_role) rows (omega arith)
                    (ground (arith, all, on, other, two, h)))))
        ]
      ]

  pub IsEntitled-rank :
      (min_role : Role) (login_id : String)
      → rank min_role ≤ max_rank (get_user_roles settings rows login_id)
      → IsEntitled min_role login_id
  IsEntitled-rank viewer login_id h = inl refl
  IsEntitled-rank editor login_id h = IsEntitled-above editor login_id (omega arith) h
  IsEntitled-rank deployer login_id h = IsEntitled-above deployer login_id (omega arith) h
  IsEntitled-rank admin login_id h = IsEntitled-above admin login_id (omega arith) h

  pub rank-IsEntitled :
      (min_role : Role) (login_id : String)
      → IsEntitled min_role login_id
      → rank min_role ≤ max_rank (get_user_roles settings rows login_id)
  rank-IsEntitled min_role login_id entitled =
      let most = rank-le min_role in
      let all = max_rank_eq login_id in
      elim entitled [
        | inl low ↦ ground (arith, all, ap rank low)
        | inr (inl off) ↦ ground (arith, all, most, off)
        | inr (inr (inl boot)) ↦
            ground (arith, all, most, boot, eq_iff login_id settings.bootstrap_admin)
        | inr (inr (inr row)) ↦
            ground (arith, all, most, max_of_row settings rows login_id (rank min_role) rows row)
      ]

  -- The role of a viewer is granted to everyone. Another one is granted exactly if the checks are
  -- off, to the first administrator, and to a user with a row that names a role of at least its
  -- rank.
  pub require_role-IsEntitled :
      (min_role : Role) (login_id : String)
      → (require_role settings rows min_role login_id ≡ ok login_id) ↔ IsEntitled min_role login_id
  unfolding require_role
  require_role-IsEntitled min_role login_id = (
    λ h. IsEntitled-rank min_role login_id (ground arith),
    λ entitled. ground (arith, rank-IsEntitled min_role login_id entitled),
  )
