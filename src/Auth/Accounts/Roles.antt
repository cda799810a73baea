-- ===== src/Auth/Accounts/Roles.antt =====
-- apps/api/src/auth/roles.service.ts: operations on roles, and the registry that they refresh.
use nexuspuppet.Base.{
  ℕ, String, Bool, true, false, not, ◌&&◌, ◌||◌, Option, none, some, List, [], ◌∷◌, ◌++◌, map,
  str_eq, if◌then◌else◌, keep, includes, length, ◌==◌,
}
use nexuspuppet.Base.Sort.{sort}
use nexuspuppet.Base.Dict.{Dict}
use nexuspuppet.Value.Text.{text_before, join}
use nexuspuppet.Auth.Policy
use nexuspuppet.Auth.Policy.{Snapshot, RoleRow}
use nexuspuppet.Auth.Accounts.{
  User, Role, Datum, text, texts, AuditRow, Accounts, Actor, World, RoleMapping, AccountError,
  Answer, ok, denied, find_role, find_role_name, administrative, first_unheld, no_such_role,
  last_holder, audit_failed, name_taken, role_built_in, role_held, role_mapped,
}

-- The tables, and the snapshot that the policy decides by.
pub record RoleState : Type 0 where
  pub accounts : Accounts
  pub registry : Snapshot

pub record CreateRole : Type 0 where
  pub name : String
  pub description : Option String
  pub permissions : List String

-- The description may be left out, or be null.
pub record UpdateRole : Type 0 where
  pub description : Option (Option String)
  pub permissions : Option (List String)

abbrev row_of : Role → RoleRow
row_of r = record { name = r.name; permissions = r.permissions }

-- `registry.invalidate()`, by whether the query is answered.
abbrev pub invalidate : Bool → RoleState → RoleState
invalidate answered s = record s {
  registry =
      Policy.refresh s.registry (if answered then some (map row_of s.accounts.roles) else none);
}

abbrev role_row : Actor → String → String → Option (Dict Datum) → Option (Dict Datum) → AuditRow
role_row actor action id before after = record {
  actor_user_id = some actor.user_id;
  actor_email = some actor.email;
  action = action;
  entity_type = "Role";
  entity_id = id;
  before = before;
  after = after;
  ip_address = actor.ip_address;
  user_agent = actor.user_agent;
}

abbrev role_summary : Role → Option (Dict Datum)
role_summary r = some (("name", text r.name) ∷ ("permissions", texts r.permissions) ∷ [])

-- What follows the write, which is not in a transaction with it: the audit row, which may be refused,
-- and then the registry.
unfoldable pub recorded : World → Bool → AuditRow → RoleState → Answer Unit × RoleState
recorded w answered row s =
    if w.accepts row
    then (
      ok tt,
      invalidate answered
          (record s { accounts = record s.accounts { audit = s.accounts.audit ++ row ∷ [] } }),
    )
    else (denied audit_failed, s)

abbrev pub with_roles : List Role → RoleState → RoleState
with_roles roles s = record s { accounts = record s.accounts { roles = roles } }

abbrev pub new_role : String → CreateRole → Role
new_role id input = record {
  id = id;
  name = input.name;
  description = input.description;
  permissions = input.permissions;
  built_in = false;
}

abbrev pub create_role_as :
    World → Actor → Bool → Role → Option Role → RoleState → Answer Unit × RoleState
create_role_as w actor answered new (some r) s = (denied name_taken, s)
create_role_as w actor answered new none s =
    recorded w answered (role_row actor "role.create" new.id none (role_summary new))
      (with_roles (s.accounts.roles ++ new ∷ []) s)

-- `create`, given the random id.
unfoldable pub create_role :
    World → Actor → Bool → String → CreateRole → RoleState → Answer Unit × RoleState
create_role w actor answered id input s =
    create_role_as w actor answered (new_role id input) (find_role_name input.name s.accounts.roles)
      s

abbrev same_text : Option String → Option String → Bool
same_text none none = true
same_text (some a) (some b) = str_eq a b
same_text (some a) none = false
same_text none (some b) = false

abbrev permissions_changed : Option (List String) → Role → Bool
permissions_changed none before = false
permissions_changed (some ps) before =
    not (length ps == length before.permissions)
    || not
        (str_eq (join " " (sort text_before ps)) (join " " (sort text_before before.permissions)))

abbrev description_changed : Option (Option String) → Role → Bool
description_changed none before = false
description_changed (some d) before = not (same_text d before.description)

-- `assertBuiltInUnchanged`, whether it throws.
unfoldable pub redefines_built_in : Role → UpdateRole → Bool
redefines_built_in before input =
    before.built_in
    && (permissions_changed input.permissions before
        || description_changed input.description before)

-- A permission counts as granted elsewhere by the active users whose role has another name.
abbrev granted_but : String → String → Option Role → Bool
granted_but name permission none = false
granted_but name permission (some r) = not (str_eq r.name name) && includes r.permissions permission

abbrev pub holds_elsewhere : List Role → String → String → User → Bool
holds_elsewhere roles name permission u =
    u.is_active && granted_but name permission (find_role u.role_id roles)

abbrev pub count_elsewhere : Accounts → String → String → ℕ
count_elsewhere a name permission = length (keep (holds_elsewhere a.roles name permission) a.users)

-- `assertAdministrationSurvives`: the first permission that would be lost.
abbrev pub lost_by : Accounts → String → Option (List String) → Option String
lost_by a name none = none
lost_by a name (some next) =
    first_unheld (λ p. if includes next p then 1 else count_elsewhere a name p) administrative

abbrev changed_role : UpdateRole → Role → Role
changed_role input r = record r {
  description = elim input.description [ none ↦ r.description | some d ↦ d ];
  permissions = elim input.permissions [ none ↦ r.permissions | some ps ↦ ps ];
}

-- `role.update` by the id.
abbrev pub change_role : String → UpdateRole → Role → Role
change_role id input r = if str_eq r.id id then changed_role input r else r

abbrev pub update_role_unless :
    World
    → Actor
    → Bool
    → String
    → UpdateRole
    → Role
    → Option String
    → RoleState
    → Answer Unit × RoleState
update_role_unless w actor answered id input before (some p) s = (denied (last_holder p), s)
update_role_unless w actor answered id input before none s =
    recorded w answered
      (role_row actor "role.update" id (role_summary before)
        (role_summary (changed_role input before)))
      (with_roles (map (change_role id input) s.accounts.roles) s)

abbrev pub update_role_found :
    World → Actor → Bool → String → UpdateRole → Option Role → RoleState → Answer Unit × RoleState
update_role_found w actor answered id input none s = (denied no_such_role, s)
update_role_found w actor answered id input (some before) s =
    if redefines_built_in before input
    then (denied role_built_in, s)
    else update_role_unless w actor answered id input before
        (lost_by s.accounts before.name input.permissions) s

unfoldable pub update_role :
    World → Actor → Bool → String → UpdateRole → RoleState → Answer Unit × RoleState
update_role w actor answered id input s =
    update_role_found w actor answered id input (find_role id s.accounts.roles) s

abbrev pub count_role_users : String → List User → ℕ
count_role_users id users = length (keep (λ u. str_eq u.role_id id) users)

-- `blockingMappings`
abbrev pub blocking : World → String → List RoleMapping
blocking w name = keep (λ g. str_eq g.role name) w.mappings

-- The guards of `remove` on a role that was found, in their order.
abbrev pub remove_role_refusal : World → Role → Accounts → Option AccountError
remove_role_refusal w role a =
    if role.built_in
    then some role_built_in
    else if not (count_role_users role.id a.users == 0)
    then some role_held
    else if not (length (blocking w role.name) == 0)
    then some role_mapped
    else elim (first_unheld (count_elsewhere a role.name) administrative) [
      | none ↦ none
      | some p ↦ some (last_holder p)
    ]

abbrev pub remove_role_unless :
    World → Actor → Bool → Role → Option AccountError → RoleState → Answer Unit × RoleState
remove_role_unless w actor answered role (some why) s = (denied why, s)
remove_role_unless w actor answered role none s =
    recorded w answered (role_row actor "role.delete" role.id (role_summary role) none)
      (with_roles (keep (λ r. not (str_eq r.id role.id)) s.accounts.roles) s)

abbrev pub remove_role_found :
    World → Actor → Bool → Option Role → RoleState → Answer Unit × RoleState
remove_role_found w actor answered none s = (denied no_such_role, s)
remove_role_found w actor answered (some role) s =
    remove_role_unless w actor answered role (remove_role_refusal w role s.accounts) s

unfoldable pub remove_role : World → Actor → Bool → String → RoleState → Answer Unit × RoleState
remove_role w actor answered id s =
    remove_role_found w actor answered (find_role id s.accounts.roles) s
