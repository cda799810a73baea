-- ===== src/Tests/Accounts.antt =====
-- users.service.ts and roles.service.ts on a deployment of three users and three roles.
use nexuspuppet.Base.{
  String, Bool, true, false, none, some, List, [], ◌∷◌, ◌≡◌, ◌↔◌, refl, str_eq, any, All,
}
use nexuspuppet.Auth.Tokens.{RefreshToken}
use nexuspuppet.Auth.Accounts.{
  Answer, holds, audited, User, Role, Accounts, Actor, World, ok, denied, last_holder, role_held,
}
use nexuspuppet.Auth.Accounts.Users.{
  update_unless, update_refusal, unheld, UpdateUser, MoveAuthSource, update, remove, deletion_row,
}
use nexuspuppet.Auth.Accounts.Secrets.{move_auth_source}
use nexuspuppet.Auth.Accounts.Roles.{
  redefines_built_in, RoleState, UpdateRole, update_role, remove_role,
}
use nexuspuppet.Auth.Accounts.Requests.{
  Steps, with_accounts, updating, moving, removing, updating_role, no_request, then_request,
}
use nexuspuppet.Auth.Accounts.Soundness.{IsSound}
use nexuspuppet.Auth.Accounts.Administration.{Steps-IsSound}
use nexuspuppet.Auth.Accounts.Credentials.{OwnsPassword, Steps-OwnsPassword}
use nexuspuppet.Auth.Accounts.Sessions.{HasEnded, by_move, Ending-HasEnded}
use nexuspuppet.Auth.Accounts.Removal.{OtherHolder, left_by, remove_iff}

abbrev user : String → String → Bool → User
user id role active = record {
  id = id;
  email = id;
  display_name = id;
  password_hash = some "#";
  role = role;
  role_id = role;
  is_active = active;
  auth_source = "local";
  directory_id = none;
}

abbrev role : String → List String → Bool → Role
role name permissions built_in = record {
  id = name;
  name = name;
  description = none;
  permissions = permissions;
  built_in = built_in;
}

abbrev session : RefreshToken
session = record {
  id = 0;
  user_id = "bob";
  token_hash = "t";
  family_id = "f";
  expires_at = 5000;
  consumed_at = none;
  revoked_at = none;
  user_agent = none;
  ip_address = none;
}

abbrev accounts : Accounts
accounts = record {
  users = user "ann" "OPS" true ∷ user "bob" "OPS" true ∷ user "cy" "VIEWER" true ∷ [];
  roles =
      role "OPS" ("users:manage" ∷ "settings:manage" ∷ []) false
      ∷ role "VIEWER" [] true
      ∷ role "SPARE" ("users:manage" ∷ []) false
      ∷ [];
  saved_queries = [];
  audit = [];
  tokens = record { rows = session ∷ []; next_id = 1 };
}

abbrev start : RoleState
start = record { accounts = accounts; registry = [] }

abbrev ann : Actor
ann = record { user_id = "ann"; email = "ann"; ip_address = none; user_agent = none }

abbrev world : World
world = record {
  sources = "local" ∷ "ldap" ∷ [];
  accepts = λ row. true;
  hash_password = λ s. s;
  verify_password = str_eq;
  normalize = λ s. s;
  mappings = [];
  now = 100;
  hash_token = λ s. s;
  access_ttl = 1;
  refresh_ttl = 9;
}

abbrev to_ldap : MoveAuthSource
to_ldap = record { auth_source = "ldap"; password = none }

abbrev strip : UpdateRole
strip = record { description = none; permissions = some [] }

-- Bob is moved to the directory, then removed; the last two requests would lock everybody out.
abbrev moved_state : RoleState
moved_state = with_accounts start (move_auth_source world ann "bob" to_ldap start.accounts).1

abbrev removed_state : RoleState
removed_state = with_accounts moved_state (remove world ann "bob" moved_state.accounts).1

abbrev stripped_state : RoleState
stripped_state = (update_role world ann true "OPS" strip removed_state).1

abbrev demotion : UpdateUser
demotion = record { display_name = none; role = some "VIEWER"; is_active = none }

abbrev last_state : RoleState
last_state =
    with_accounts stripped_state (update world ann "ann" demotion stripped_state.accounts).1

abbrev history : Steps start last_state
history =
    then_request
      (then_request
        (then_request (then_request (no_request start) (moving world ann "bob" to_ldap start))
          (removing world ann "bob" moved_state))
        (updating_role world ann true "OPS" strip removed_state))
      (updating world ann "ann" demotion stripped_state)

start-IsSound : IsSound start.accounts.users start.accounts.roles
start-IsSound = (
  (refl, (refl, (refl, tt))),
  (
    (role "OPS" ("users:manage" ∷ "settings:manage" ∷ []) false, refl, refl),
    (
      (role "OPS" ("users:manage" ∷ "settings:manage" ∷ []) false, refl, refl),
      ((role "VIEWER" [] true, refl, refl), tt),
    ),
  ),
  (refl, refl),
)

-- The two requests that would are refused.
strip_refused :
    (update_role world ann true "OPS" strip removed_state).0 ≡ denied (last_holder "users:manage")
unfolding update_role remove move_auth_source audited redefines_built_in
strip_refused = refl

demotion_refused :
    (update world ann "ann" demotion removed_state.accounts).0 ≡ denied (last_holder "users:manage")
unfolding update remove move_auth_source audited
demotion_refused = refl

held_refused : (remove_role world ann true "OPS" start).0 ≡ denied role_held
unfolding remove_role
held_refused = refl

-- Two requests that both count before either writes: Ann demotes Bob while Bob demotes Ann.
abbrev bob : Actor
bob = record { user_id = "bob"; email = "bob"; ip_address = none; user_agent = none }

abbrev after_both : Answer Accounts
after_both =
    let before = user "ann" "OPS" true in
    update_unless world bob "ann" demotion before
      (update_refusal bob "ann" demotion before (unheld true accounts "ann"))
      (update world ann "bob" demotion accounts).1

abbrev administered : Answer Accounts → Bool
administered (ok a) = any (holds a.roles "users:manage") a.users
administered (denied why) = true

both_demoted : administered after_both ≡ false
unfolding update audited
both_demoted = refl

Steps-IsSound_example : IsSound last_state.accounts.users last_state.accounts.roles
Steps-IsSound_example = Steps-IsSound history start-IsSound

Steps-OwnsPassword_example : All OwnsPassword last_state.accounts.users
Steps-OwnsPassword_example = Steps-OwnsPassword history (refl, (refl, (refl, tt)))

Ending-HasEnded_example :
    All (HasEnded "bob") (move_auth_source world ann "bob" to_ldap accounts).1.tokens.rows
unfolding move_auth_source audited
Ending-HasEnded_example =
    Ending-HasEnded {w = world} {id = "bob"} (by_move ann to_ldap accounts) refl

remove_iff_example :
    (((remove world ann "bob" accounts).0 ≡ ok tt) ↔ (
      (str_eq "bob" "ann" ≡ false)
      × OtherHolder accounts.roles "bob" "users:manage" accounts.users
      × OtherHolder accounts.roles "bob" "settings:manage" accounts.users
      × (world.accepts (deletion_row ann "bob" (user "bob" "OPS" true)) ≡ true)))
    × ((remove world ann "bob" accounts).1.users
        ≡ left_by (remove world ann "bob" accounts).0 "bob" accounts.users)
remove_iff_example =
    remove_iff world ann "bob" accounts (user "bob" "OPS" true) refl
      ((refl, (refl, tt)), ((refl, tt), (tt, tt)))
