-- ===== src/Control/Access.antt =====
-- Who may do what: roles and grants (backend/app/auth/rbac.py).
pub mod Roles
pub mod Grants
pub mod Signature
pub mod Samples
use python_flow_hub.Prelude.{
  ℕ, String, Bool, true, false, not, ◌&&◌, ◌||◌, Option, none, some, List, [], ◌∷◌, ltb, leb, ◌==◌,
  if◌then◌else◌, Result, ok, err,
}
use python_flow_hub.Runtime.Errors.{Error, raised}

pub data Role : Type 0 where
  viewer editor deployer admin : Role

-- The numbers of the `IntEnum`.
abbrev pub rank : Role → ℕ
rank viewer = 1
rank editor = 2
rank deployer = 3
rank admin = 4

-- `_ROLE_MAP`
unfoldable pub role_of : String → Option Role
role_of name =
    if name == "viewer"
    then some viewer
    else if name == "editor"
    then some editor
    else if name == "deployer"
    then some deployer
    else if name == "admin"
    then some admin
    else none

pub record Settings : Type 0 where
  pub bootstrap_admin : String
  pub auth_enabled : Bool

-- A row of `PyFlowUserRole`.
pub record UserRole : Type 0 where
  pub login_id : String
  pub role : String

-- A row of `PyFlowResourceGrant`.
pub record ResourceGrant : Type 0 where
  pub resource_type : String
  pub resource_id : String
  pub login_id : String
  pub access : String

abbrev pub add_role : Option Role → List Role → List Role
add_role none roles = roles
add_role (some r) roles = r ∷ roles

-- The roles of a user's rows; what is no role is passed over.
unfoldable pub roles_of_rows : String → List UserRole → List Role
unfolding role_of
roles_of_rows login_id [] = []
roles_of_rows login_id (row ∷ rows) =
    let rest = roles_of_rows login_id rows in
    if row.login_id == login_id then add_role (role_of row.role) rest else rest

abbrev pub or_viewer : List Role → List Role
or_viewer [] = viewer ∷ []
or_viewer (r ∷ roles) = r ∷ roles

abbrev pub add_if : Bool → List Role → List Role
add_if b roles = if b then admin ∷ roles else roles

-- A set of roles as a list; only its greatest member is used.
unfoldable pub get_user_roles : Settings → List UserRole → String → List Role
unfolding roles_of_rows
get_user_roles settings rows login_id = or_viewer (
    add_if (not settings.auth_enabled)
      (add_if (login_id == settings.bootstrap_admin) (roles_of_rows login_id rows)))

-- The rank of `max(roles)`.
unfoldable pub max_rank : List Role → ℕ
max_rank [] = 0
max_rank (r ∷ roles) = let rest = max_rank roles in if ltb rest (rank r) then rank r else rest

module _ (settings : Settings) (rows : List UserRole) where
  unfoldable pub require_role : Role → String → Result Error String
  unfolding get_user_roles max_rank
  require_role min_role login_id =
      if ltb (max_rank (get_user_roles settings rows login_id)) (rank min_role)
      then err (raised "PYFLOW_AUTH_FORBIDDEN")
      else ok login_id

  abbrev pub matches : (resource_type access resource_id login_id : String) → ResourceGrant → Bool
  matches resource_type access resource_id login_id g =
      g.resource_type == resource_type
      && (g.resource_id == resource_id && (g.login_id == login_id && g.access == access))

  abbrev pub any_grant :
      (resource_type access resource_id login_id : String) → List ResourceGrant → Bool
  any_grant resource_type access resource_id login_id [] = false
  any_grant resource_type access resource_id login_id (g ∷ grants) =
      matches resource_type access resource_id login_id g
      || any_grant resource_type access resource_id login_id grants

  abbrev pub owns : Option String → String → Bool
  owns none login_id = false
  owns (some owner) login_id = not (owner == "") && login_id == owner

  -- `require_resource_access(resource_type, access)`
  unfoldable pub require_resource_access :
      List ResourceGrant
      → (resource_type access resource_id login_id : String) → Option String
      → Result Error Bool
  unfolding get_user_roles max_rank
  require_resource_access grants resource_type access resource_id login_id owner_login_id =
      if leb (rank admin) (max_rank (get_user_roles settings rows login_id))
      then ok true
      else if owns owner_login_id login_id
      then ok true
      else if any_grant resource_type access resource_id login_id grants
      then ok true
      else err (raised "PYFLOW_FORBIDDEN_RESOURCE")
