-- ===== src/Iam/Rbac/Laws.antt =====
-- What the table of roles grants.
use tom_ai_agent.Base.{
  str_eq, GoString, str_eq_iff, str_eq_refl, lookup, ◌≡◌, refl, ◌↔◌, true, false, ◌||◌, some, [],
  ◌∷◌, arith,
}
use tom_ai_agent.Iam.Rbac.{
  perm_command_submit, perm_command_cancel, perm_command_result, perm_asset_view, role_perms,
  role_admin, role_operator, role_auditor, perm_admin, has_member, has_permission,
}

auditor_perms : lookup role_auditor role_perms ≡ some (perm_command_result ∷ perm_asset_view ∷ [])
unfolding lookup str_eq
auditor_perms = refl

operator_perms :
    lookup role_operator role_perms
    ≡ some (perm_command_submit ∷ perm_command_cancel ∷ perm_command_result ∷ perm_asset_view ∷ [])
unfolding lookup str_eq
operator_perms = refl

admin_perms : lookup role_admin role_perms ≡ some (perm_admin ∷ [])
unfolding lookup str_eq
admin_perms = refl

plain_perms :
    (str_eq perm_command_result perm_admin ≡ false)
    × (str_eq perm_asset_view perm_admin ≡ false)
    × (str_eq perm_command_submit perm_admin ≡ false)
    × (str_eq perm_command_cancel perm_admin ≡ false)
unfolding str_eq
plain_perms = (refl, refl, refl, refl)

-- Only the role admin passes the check for the wildcard permission.
admin_only : (role : GoString) → (has_permission role perm_admin ≡ true) ↔ (role ≡ role_admin)
unfolding has_permission lookup has_member
admin_only role = ground (arith, str_eq_iff role_admin role, plain_perms, str_eq_refl perm_admin)

admin_has_all : (perm : GoString) → has_permission role_admin perm ≡ true
unfolding has_permission has_member
admin_has_all perm = rw (has_permission, admin_perms, str_eq_refl perm_admin) refl

-- A permission of an auditor is one of the two of the table.
auditor_has :
    (perm : GoString)
    → has_permission role_auditor perm ≡ true
    → (str_eq perm_command_result perm || str_eq perm_asset_view perm) ≡ true
unfolding has_permission has_member
auditor_has perm h = ground (arith, auditor_perms, plain_perms)

operator_has :
    (perm : GoString)
    → (str_eq perm_command_result perm || str_eq perm_asset_view perm) ≡ true
    → has_permission role_operator perm ≡ true
unfolding has_permission has_member
operator_has perm h = ground (arith, operator_perms)

-- Each permission of an auditor is one of an operator, and each one of an operator is one of an admin.
roles_nested :
    (perm : GoString)
    → has_permission role_auditor perm ≡ true
    → (has_permission role_operator perm ≡ true) × (has_permission role_admin perm ≡ true)
roles_nested perm h = (operator_has perm (auditor_has perm h), admin_has_all perm)
