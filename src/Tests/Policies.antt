-- ===== src/Tests/Policies.antt =====
-- rbac.policy.ts and role-registry.ts on two roles.
use nexuspuppet.Base.{true, false, Option, none, some, List, [], ◌∷◌, ◌≡◌, ◌↔◌, refl, String}
use nexuspuppet.Auth.Policy.{AuthenticatedPrincipal, AuthorizationTarget, RoleRow, Snapshot, can}
use nexuspuppet.Auth.Policy.Laws.{
  HoldsRole, Grants, AdmitsTarget, can_iff, refreshes, unknown_permission,
}

abbrev rows : List RoleRow
rows =
    record { name = "VIEWER"; permissions = "inventory:read" ∷ "reports:read" ∷ [] }
    ∷ record { name = "EDITOR"; permissions = "classification:write" ∷ "nodes:delete" ∷ [] }
    ∷ []

abbrev snapshot : Snapshot
snapshot = refreshes [] (some rows ∷ none ∷ [])

abbrev editor : AuthenticatedPrincipal
editor = record {
  role = "VIEWER";
  roles = some ("VIEWER" ∷ "EDITOR" ∷ []);
  scoped_group_ids = none;
  scoped_environments = some ("production" ∷ []);
}

abbrev in_production : Option AuthorizationTarget
in_production = some (record { group_id = some "g"; environment = some "production" })

can_iff_example : (can snapshot editor "classification:write" in_production ≡ true) ↔ (
    ((name : String) × HoldsRole editor.roles editor.role name
      × Grants snapshot "classification:write" name)
    × AdmitsTarget editor in_production)
can_iff_example = can_iff snapshot editor "classification:write" in_production

unknown_permission_example : can snapshot editor "nodes:delete" in_production ≡ false
unknown_permission_example =
    unknown_permission (some rows ∷ none ∷ []) editor "nodes:delete" in_production refl
