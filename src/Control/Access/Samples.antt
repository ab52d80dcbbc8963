-- ===== src/Control/Access/Samples.antt =====
-- Users, grants and a signed request (backend/app/auth/rbac.py, backend/app/core/auth_validator.py).
use python_flow_hub.Prelude.{String, ◌≡◌, ◌↔◌, ◌⊎◌, refl, true, some, List, [], ◌∷◌, ok, err}
use python_flow_hub.Value.{pos}
use python_flow_hub.Runtime.Errors.{raised}
use python_flow_hub.Control.Access.{
  editor, admin, Settings, UserRole, ResourceGrant, require_role, require_resource_access,
}
use python_flow_hub.Control.Access.Roles.{IsEntitled, require_role-IsEntitled}
use python_flow_hub.Control.Access.Grants.{IsOwner, HasGrant, require_resource_access_lem}
use python_flow_hub.Control.Access.Signature.{
  Crypto, accepted, IsGenuine, validate_request, validate_request-accepted,
}

abbrev settings : Settings
settings = record { bootstrap_admin = "root"; auth_enabled = true }

abbrev users : List UserRole
users =
    (record { login_id = "ann"; role = "deployer" })
    ∷ (record { login_id = "bob"; role = "guest" })
    ∷ []

abbrev grants : List ResourceGrant
grants =
    (record { resource_type = "flow"; resource_id = "f1"; login_id = "bob"; access = "write" }) ∷ []

refused : require_role settings users admin "ann" ≡ err (raised "PYFLOW_AUTH_FORBIDDEN")
unfolding require_role
refused = refl

require_role-IsEntitled_example :
    (require_role settings users editor "ann" ≡ ok "ann") ↔ IsEntitled settings users editor "ann"
require_role-IsEntitled_example = require_role-IsEntitled settings users editor "ann"

require_resource_access_example :
    (require_resource_access settings users grants "flow" "read" "f1" "bob" (some "ann") ≡ ok true)
    ↔ (IsEntitled settings users admin "bob"
        ⊎ (IsOwner settings users (some "ann") "bob"
            ⊎ HasGrant settings users "flow" "read" "f1" "bob" grants))
require_resource_access_example =
    require_resource_access_lem settings users grants "flow" "read" "f1" "bob" (some "ann")

abbrev crypto : Crypto String String
crypto = record {
  fromhex = λ s. some s;
  hmac_sha256 = λ k s. "signed";
  md5 = λ b. b;
  int = λ s. some (pos 1000);
  lower = λ s. s;
  is_ascii = λ s. true;
}

validate_request-accepted_example :
    (validate_request crypto 2000 "00" "search" "{}" (some "1000") (some "signed") ≡ ok accepted)
    ↔ IsGenuine crypto 2000 "00" "search" "{}" (some "1000") (some "signed")
validate_request-accepted_example =
    validate_request-accepted crypto 2000 "00" "search" "{}" (some "1000") (some "signed")
