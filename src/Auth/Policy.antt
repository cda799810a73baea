-- ===== src/Auth/Policy.antt =====
-- apps/api/src/auth/rbac.policy.ts and the snapshot of apps/api/src/auth/role-registry.ts that it
-- reads.
pub mod Laws
use nexuspuppet.Base.{
  ℕ, zero, String, Bool, true, false, not, ◌&&◌, ◌||◌, Option, none, some, List, [], ◌∷◌, ◌++◌,
  str_eq, if◌then◌else◌, length, ltb, any, includes, keep,
}
use nexuspuppet.Base.Sort.{sort}
use nexuspuppet.Base.Dict.{Dict, get, put}
use nexuspuppet.Value.Text.{text_before}

pub record AuthenticatedPrincipal : Type 0 where
  pub role : String
  pub roles : Option (List String)
  pub scoped_group_ids : Option (List String)
  pub scoped_environments : Option (List String)

pub record AuthorizationTarget : Type 0 where
  pub group_id : Option String
  pub environment : Option String

pub record RoleRow : Type 0 where
  pub name : String
  pub permissions : List String

-- `permissionSchema`, the permissions that this build knows.
abbrev pub known_permissions : List String
known_permissions =
    "inventory:read" ∷ "reports:read" ∷ "classification:read" ∷ "classification:write"
    ∷ "materialization:trigger" ∷ "users:manage" ∷ "settings:manage" ∷ "pql:raw" ∷ "resources:read"
    ∷ []

-- The map from role names to what they grant.
abbrev pub Snapshot : Type 0
Snapshot = Dict (List String)

abbrev load_row : Snapshot → RoleRow → Snapshot
load_row next row = put next row.name (keep (includes known_permissions) row.permissions)

abbrev load_rows : Snapshot → List RoleRow → Snapshot
load_rows next [] = next
load_rows next (row ∷ rows) = load_rows (load_row next row) rows

abbrev refuse_empty : Snapshot → Option Snapshot
refuse_empty [] = none
refuse_empty (entry ∷ entries) = some (entry ∷ entries)

-- `load`: the new snapshot, or `none` where it throws as the table is empty.
unfoldable pub load : List RoleRow → Option Snapshot
load rows = refuse_empty (load_rows [] rows)

-- A refresh on the timer, or after a write: one that fails keeps the previous snapshot. `none` is a
-- query that failed.
unfoldable pub refresh : Snapshot → Option (List RoleRow) → Snapshot
unfolding load
refresh previous none = previous
refresh previous (some rows) = elim (load rows) [ none ↦ previous | some next ↦ next ]

-- `principal.roles ?? [principal.role]`
unfoldable pub held : AuthenticatedPrincipal → List String
held principal = elim principal.roles [ none ↦ principal.role ∷ [] | some roles ↦ roles ]

abbrev pub grants : Snapshot → String → String → Bool
grants roles permission name = elim (get roles name) [
  | none ↦ false
  | some granted ↦ includes granted permission
]

-- One of the two scopes: it refuses where it is not empty, the request names a value, and the value
-- is not in it.
abbrev in_scope : Option (List String) → Option String → Bool
in_scope none named = true
in_scope (some scope) none = true
in_scope (some scope) (some value) = not (ltb 0 (length scope)) || includes scope value

unfoldable pub within_scope : AuthenticatedPrincipal → Option AuthorizationTarget → Bool
within_scope principal none = true
within_scope principal (some target) =
    if in_scope principal.scoped_group_ids target.group_id
    then in_scope principal.scoped_environments target.environment
    else false

unfoldable pub can : Snapshot → AuthenticatedPrincipal → String → Option AuthorizationTarget → Bool
unfolding held within_scope
can roles principal permission target =
    if any (grants roles permission) (held principal) then within_scope principal target else false

abbrev add_new : List String → List String → List String
add_new union [] = union
add_new union (p ∷ ps) = add_new (if includes union p then union else union ++ p ∷ []) ps

abbrev permissions_of : Option (List String) → List String
permissions_of none = []
permissions_of (some ps) = ps

abbrev union_of : Snapshot → List String → List String → List String
union_of roles union [] = union
union_of roles union (name ∷ names) =
    union_of roles (add_new union (permissions_of (get roles name))) names

unfoldable pub permissions_for : Snapshot → AuthenticatedPrincipal → List String
unfolding held
permissions_for roles principal = sort text_before (union_of roles [] (held principal))
