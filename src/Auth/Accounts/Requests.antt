-- ===== src/Auth/Accounts/Requests.antt =====
-- Requests to users.service.ts and roles.service.ts as steps.
use nexuspuppet.Base.{String, Bool, true, Option, none, ◌≡◌}
use nexuspuppet.Auth.Accounts.{Accounts, Actor, World, find_role}
use nexuspuppet.Auth.Accounts.Users.{
  CreateUser, UpdateUser, valid_create, MoveAuthSource, create, update, deactivate, remove,
}
use nexuspuppet.Auth.Accounts.Secrets.{change_own_password, reset_password, move_auth_source}
use nexuspuppet.Auth.Accounts.Roles.{
  RoleState, CreateRole, UpdateRole, create_role, update_role, remove_role,
}

abbrev pub with_accounts : RoleState → Accounts → RoleState
with_accounts s a = record s { accounts = a }

-- One request, answered or refused. What `create` is given has passed the schema, and the random id
-- of a new role is no other role's.
pub data Step : RoleState → RoleState → Type 0 where
  creating :
      (w : World) (actor : Actor) (id : String) (input : CreateUser) (s : RoleState)
      → valid_create input ≡ true
      → Step s (with_accounts s (create w actor id input s.accounts).1)
  updating :
      (w : World) (actor : Actor) (id : String) (input : UpdateUser) (s : RoleState)
      → Step s (with_accounts s (update w actor id input s.accounts).1)
  deactivating :
      (w : World) (actor : Actor) (id : String) (s : RoleState)
      → Step s (with_accounts s (deactivate w actor id s.accounts).1)
  removing :
      (w : World) (actor : Actor) (id : String) (s : RoleState)
      → Step s (with_accounts s (remove w actor id s.accounts).1)
  changing_password :
      (w : World) (actor : Actor) (current next : String) (spared : Option String) (s : RoleState)
      → Step s (with_accounts s (change_own_password w actor current next spared s.accounts).1)
  resetting_password :
      (w : World) (actor : Actor) (id next : String) (s : RoleState)
      → Step s (with_accounts s (reset_password w actor id next s.accounts).1)
  moving :
      (w : World) (actor : Actor) (id : String) (input : MoveAuthSource) (s : RoleState)
      → Step s (with_accounts s (move_auth_source w actor id input s.accounts).1)
  creating_role :
      (w : World) (actor : Actor) (answered : Bool) (id : String) (input : CreateRole)
      (s : RoleState)
      → find_role id s.accounts.roles ≡ none
      → Step s (create_role w actor answered id input s).1
  updating_role :
      (w : World) (actor : Actor) (answered : Bool) (id : String) (input : UpdateRole)
      (s : RoleState)
      → Step s (update_role w actor answered id input s).1
  removing_role :
      (w : World) (actor : Actor) (answered : Bool) (id : String) (s : RoleState)
      → Step s (remove_role w actor answered id s).1

pub data Steps : RoleState → RoleState → Type 0 where
  no_request : (s : RoleState) → Steps s s
  then_request : {s t u : RoleState} → Steps s t → Step t u → Steps s u
