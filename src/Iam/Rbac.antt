-- ===== src/Iam/Rbac.antt =====
-- internal/iam/rbac.go: the roles and their permissions. A set is the list of its members.
pub mod Laws
mod Examples
use tom_ai_agent.Base.{
  str_eq, GoString, codes, lookup, Dict, Bool, true, false, ◌||◌, none, some, List, [], ◌∷◌,
}

abbrev pub role_admin : GoString
role_admin = codes "admin"

abbrev pub role_operator : GoString
role_operator = codes "operator"

abbrev pub role_auditor : GoString
role_auditor = codes "auditor"

abbrev pub perm_command_submit : GoString
perm_command_submit = codes "command.submit"

abbrev pub perm_command_cancel : GoString
perm_command_cancel = codes "command.cancel"

abbrev pub perm_command_result : GoString
perm_command_result = codes "command.result"

abbrev pub perm_asset_view : GoString
perm_asset_view = codes "asset.view"

abbrev pub perm_admin : GoString
perm_admin = codes "*"

abbrev pub role_perms : Dict (List GoString)
role_perms =
    (role_admin, perm_admin ∷ [])
    ∷ (
      role_operator,
      perm_command_submit ∷ perm_command_cancel ∷ perm_command_result ∷ perm_asset_view ∷ [],
    )
    ∷ (role_auditor, perm_command_result ∷ perm_asset_view ∷ [])
    ∷ []

unfoldable pub has_member : GoString → List GoString → Bool
has_member p [] = false
has_member p (q ∷ ps) = str_eq q p || has_member p ps

unfoldable pub valid_role : GoString → Bool
valid_role role = elim (lookup role role_perms) [ none ↦ false | some _ ↦ true ]

unfoldable pub has_permission : GoString → GoString → Bool
unfolding has_member
has_permission role perm = elim (lookup role role_perms) [
  | none ↦ false
  | some perms ↦ has_member perm_admin perms || has_member perm perms
]

unfoldable pub permissions_of : GoString → List GoString
permissions_of role = elim (lookup role role_perms) [ none ↦ [] | some perms ↦ perms ]
