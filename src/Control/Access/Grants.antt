-- ===== src/Control/Access/Grants.antt =====
-- When `require_resource_access` (backend/app/auth/rbac.py) opens a resource.
use mathlib.Core.List.{Memᴰ}
use mathlib.Core.List.Memᴰ.{cases_cons, not-nil}
use python_flow_hub.Prelude.{
  String, ◌≡◌, ◌≢◌, ◌↔◌, refl, sym, ◌∙◌, ap, true, Option, none, some, List, [], ◌∷◌, leb, ok, ◌==◌,
  eq_refl, eq_iff, arith, Bool-cases, inl, inr, ◌⊎◌,
}
use python_flow_hub.Control.Access.{
  admin, Settings, UserRole, ResourceGrant, get_user_roles, max_rank, matches, any_grant, owns,
  require_resource_access,
}
use python_flow_hub.Control.Access.Roles.{IsEntitled, IsEntitled-rank, rank-IsEntitled}

module _ (settings : Settings) (rows : List UserRole) where
  -- Some grant names the resource, the user and the access.
  abbrev pub HasGrant :
      (resource_type access resource_id login_id : String) → List ResourceGrant → Type 0
  HasGrant resource_type access resource_id login_id grants =
      (g : ResourceGrant) × Memᴰ g grants
      × (g.resource_type ≡ resource_type)
      × (g.resource_id ≡ resource_id)
      × (g.login_id ≡ login_id)
      × (g.access ≡ access)

  grant_of_any :
      (t a i u : String) (grants : List ResourceGrant)
      → any_grant settings rows t a i u grants ≡ true
      → HasGrant t a i u grants
  grant_of_any t a i u [] h = absurd (cc)
  grant_of_any t a i u (g ∷ grants) h = elim (Bool-cases (matches settings rows t a i u g)) [
    | inl this ↦ (
      g,
      Memᴰ.head refl,
      ground (arith, eq_iff g.resource_type t),
      ground (arith, eq_iff g.resource_id i),
      ground (arith, eq_iff g.login_id u),
      ground (arith, eq_iff g.access a),
    )
    | inr other ↦
        let (x, m, et, ei, eu, ea) = grant_of_any t a i u grants (rw other at h) in
        (x, Memᴰ.tail m, et, ei, eu, ea)
  ]

  any_of_grant :
      (t a i u : String) (grants : List ResourceGrant)
      → HasGrant t a i u grants
      → any_grant settings rows t a i u grants ≡ true
  any_of_grant t a i u [] (x, m, _, _, _, _) = absurd (not-nil m)
  any_of_grant t a i u (g ∷ grants) (x, m, et, ei, eu, ea) = elim (cases_cons m) [
    | inl same ↦ ground (
      arith,
      sym (ap (λ (y : ResourceGrant). y.resource_type) same) ∙ et,
      sym (ap (λ (y : ResourceGrant). y.resource_id) same) ∙ ei,
      sym (ap (λ (y : ResourceGrant). y.login_id) same) ∙ eu,
      sym (ap (λ (y : ResourceGrant). y.access) same) ∙ ea,
      eq_iff g.resource_type t,
      eq_iff g.resource_id i,
      eq_iff g.login_id u,
      eq_iff g.access a,
    )
    | inr later ↦ ground (arith, any_of_grant t a i u grants (x, later, et, ei, eu, ea))
  ]

  -- The resource has an owner, who is this user.
  abbrev pub IsOwner : Option String → String → Type 0
  IsOwner owner u = (owner ≡ some u) × (u ≢ "")

  IsOwner-owns :
      (owner : Option String) (u : String) → owns settings rows owner u ≡ true → IsOwner owner u
  IsOwner-owns none u h = absurd (cc)
  IsOwner-owns (some o) u h =
      let same : u ≡ o = (eq_iff u o).0 (ground arith) in
      (ap some (sym same), λ e. absurd (ground (arith, eq_iff o "", sym same ∙ e)))

  owns-IsOwner :
      (owner : Option String) (u : String) → IsOwner owner u → owns settings rows owner u ≡ true
  owns-IsOwner owner u (same, nonempty) = elim (Bool-cases (u == "")) [
    | inl blank ↦ absurd (nonempty ((eq_iff u "").0 blank))
    | inr named ↦ rw same (ground (arith, eq_refl u))
  ]

  -- A resource is open exactly to those who are entitled to the role of an administrator, to its
  -- owner, and to the users that some grant names with this very access.
  pub require_resource_access_lem :
      (grants : List ResourceGrant) (t a i u : String) (owner : Option String)
      → (require_resource_access settings rows grants t a i u owner ≡ ok true)
        ↔ (IsEntitled settings rows admin u ⊎ (IsOwner owner u ⊎ HasGrant t a i u grants))
  unfolding require_resource_access
  require_resource_access_lem grants t a i u owner = (
    λ h. elim (Bool-cases (leb 4 (max_rank (get_user_roles settings rows u)))) [
      | inl high ↦ inl (IsEntitled-rank settings rows admin u (ground arith))
      | inr low ↦ elim (Bool-cases (owns settings rows owner u)) [
        | inl own ↦ inr (inl (IsOwner-owns owner u own))
        | inr foreign ↦ inr (inr (grant_of_any t a i u grants (ground (arith, low, foreign, h))))
      ]
    ],
    λ e. elim e [
      | inl entitled ↦ ground (arith, rank-IsEntitled settings rows admin u entitled)
      | inr (inl own) ↦ ground (arith, owns-IsOwner owner u own)
      | inr (inr grant) ↦ ground (arith, any_of_grant t a i u grants grant)
    ],
  )
