-- ===== src/Policy/Rbac.antt =====
-- src/governance/rbac.py: roles of the operators of the control plane.
use agentbridge.Base.{
  String, Bool, true, not, ◌||◌, ◌≡◌, ◌≢◌, refl, List, [], ◌∷◌, string_eq, if◌then◌else◌, contains,
  arith,
}
use agentbridge.Base.Dict.{Dict, lookup}
use agentbridge.Budget.Manager.{or_else}
use agentbridge.Store.Exec.{permission_error, Result, ok, err}
use text.Mathlib.TextEquality.{eq_iff}

abbrev pub permissions : List String
permissions =
    "identities:read" ∷ "identities:write" ∷ "budgets:read" ∷ "budgets:write" ∷ "approvals:read"
    ∷ "approvals:write" ∷ "audit:read" ∷ "audit:export" ∷ "policy:read" ∷ "policy:write" ∷ []

abbrev operator_permissions : List String
operator_permissions =
    "identities:read" ∷ "identities:write" ∷ "budgets:read" ∷ "budgets:write" ∷ "approvals:read"
    ∷ "approvals:write" ∷ "audit:read" ∷ "audit:export" ∷ "policy:read" ∷ []

abbrev viewer_permissions : List String
viewer_permissions =
    "identities:read" ∷ "budgets:read" ∷ "approvals:read" ∷ "audit:read" ∷ "policy:read" ∷ []

abbrev pub role_permissions : Dict String (List String)
role_permissions =
    ("admin", "*" ∷ []) ∷ ("operator", operator_permissions) ∷ ("viewer", viewer_permissions) ∷ []

unfoldable pub role_can : String → String → Bool
role_can role permission =
    let perms = or_else (lookup role role_permissions) [] in
    contains "*" perms || contains permission perms

unfoldable pub require : String → String → Result (Unit {0})
unfolding role_can
require role permission = if not (role_can role permission) then err permission_error else ok tt

-- The roles are nested: what a viewer may do, an operator may; what an operator may do, an admin
-- may; an admin may do everything, and a role that is none of the three nothing.
pub role_can-nested :
    (permission : String)
    → (role_can "viewer" permission ≡ true → role_can "operator" permission ≡ true)
      × (role_can "admin" permission ≡ true)
      × ((role : String)
          → role ≢ "admin"
          → role ≢ "operator"
          → role ≢ "viewer"
          → require role permission ≡ err permission_error)
unfolding role_can require lookup
role_can-nested permission = (
  ground arith,
  refl,
  λ role a o v. ground (arith, eq_iff "admin" role, eq_iff "operator" role, eq_iff "viewer" role),
)
