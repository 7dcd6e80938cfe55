-- ===== src/Iam/Rbac/Examples.antt =====
-- The theorems on the roles at the roles of the table.
use tom_ai_agent.Base.{str_eq, lookup, ◌≡◌, refl, true}
use tom_ai_agent.Iam.Rbac.{role_operator, perm_asset_view, has_member, has_permission}

operator_views : has_permission role_operator perm_asset_view ≡ true
unfolding has_permission has_member lookup str_eq
operator_views = refl
