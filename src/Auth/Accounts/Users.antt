-- ===== src/Auth/Accounts/Users.antt =====
-- The operations of apps/api/src/auth/users.service.ts.
use nexuspuppet.Base.{
  String, Bool, true, false, not, ◌&&◌, ◌||◌, Option, none, some, List, [], ◌∷◌, ◌++◌, map, str_eq,
  if◌then◌else◌, keep, includes,
}
use nexuspuppet.Base.Dict.{Dict}
use nexuspuppet.Auth.Tokens.{revoke_all_for_user}
use nexuspuppet.Auth.Accounts.{
  User, Role, SavedQuery, Datum, text, flag, AuditRow, Accounts, Actor, World, AccountError, Answer,
  ok, denied, transacted, find_user, find_email, write_user, delete_user, find_role_name,
  count_others, first_unheld, administrative, audited, user_row, no_such_user, email_taken,
  unknown_source, unknown_role, last_holder, self_deactivation, own_role, directory_role,
  self_deletion,
}

pub record CreateUser : Type 0 where
  pub email : String
  pub display_name : String
  pub role : String
  pub auth_source : String
  pub password : Option String

pub record UpdateUser : Type 0 where
  pub display_name : Option String
  pub role : Option String
  pub is_active : Option Bool

pub record MoveAuthSource : Type 0 where
  pub auth_source : String
  pub password : Option String

abbrev pub is_given : Option String → Bool
is_given none = false
is_given (some s) = true

abbrev pub is_local : String → Bool
is_local source = str_eq source "local"

-- The two refinements of `createUserSchema`: a password for a local account, and for no other.
unfoldable pub valid_create : CreateUser → Bool
valid_create input =
    (not (is_local input.auth_source) || is_given input.password)
    && (is_local input.auth_source || not (is_given input.password))

abbrev pub hashed : World → Option String → Option String
hashed w none = none
hashed w (some password) = some (w.hash_password password)

abbrev pub new_user : World → String → CreateUser → Role → User
new_user w id input role = record {
  id = id;
  email = w.normalize input.email;
  display_name = input.display_name;
  password_hash = hashed w input.password;
  role = input.role;
  role_id = role.id;
  is_active = true;
  auth_source = input.auth_source;
  directory_id = none;
}

abbrev pub add_user : World → Actor → String → CreateUser → Option Role → Accounts → Answer Accounts
add_user w actor id input none a = denied unknown_role
add_user w actor id input (some role) a =
    let u = new_user w id input role in
    audited w
      (user_row actor "user.create" id none (
        some (
          ("email", text u.email)
          ∷ ("role", text u.role)
          ∷ ("authSource", text u.auth_source)
          ∷ [])))
      (record a { users = a.users ++ u ∷ [] })

abbrev pub create_new :
    World → Actor → String → CreateUser → Option User → Accounts → Answer Accounts
create_new w actor id input (some u) a = denied email_taken
create_new w actor id input none a = add_user w actor id input (find_role_name input.role a.roles) a

-- `create`, given the random id.
unfoldable pub create : World → Actor → String → CreateUser → Accounts → Answer Unit × Accounts
create w actor id input a =
    if not (is_local input.auth_source) && not (includes w.sources input.auth_source)
    then (denied unknown_source, a)
    else transacted a (create_new w actor id input (find_email (w.normalize input.email) a.users) a)

-- `input.role !== undefined && input.role !== before.role`
abbrev pub changes_role : UpdateUser → User → Bool
changes_role input before = elim input.role [
  | none ↦ false
  | some role ↦ not (str_eq role before.role)
]

-- `input.isActive === false`
abbrev pub deactivates : UpdateUser → Bool
deactivates input = elim input.is_active [ none ↦ false | some active ↦ not active ]

-- The loop over the administrative permissions, where it is made.
abbrev pub unheld : Bool → Accounts → String → Option String
unheld could_lose a id =
    if could_lose then first_unheld (count_others a id) administrative else none

abbrev pub update_refusal : Actor → String → UpdateUser → User → Option String → Option AccountError
update_refusal actor id input before (some permission) = some (last_holder permission)
update_refusal actor id input before none =
    if str_eq id actor.user_id && deactivates input
    then some self_deactivation
    else if str_eq id actor.user_id && changes_role input before
    then some own_role
    else if changes_role input before && not (is_local before.auth_source)
    then some directory_role
    else none

-- The role and its id move together; `none` where no role has the name.
abbrev pub with_role : List Role → Option String → User → Option User
with_role roles none u = some u
with_role roles (some name) u = elim (find_role_name name roles) [
  | none ↦ none
  | some r ↦ some (record u { role = name; role_id = r.id })
]

abbrev pub or_else {ℓ} : {A : Type ℓ} → Option A → A → A
or_else none x = x
or_else (some y) x = y

abbrev pub with_fields : UpdateUser → User → User
with_fields input u = record u {
  display_name = or_else input.display_name u.display_name;
  is_active = or_else input.is_active u.is_active;
}

abbrev summary : User → Dict Datum
summary u =
    ("role", text u.role)
    ∷ ("isActive", flag u.is_active)
    ∷ ("displayName", text u.display_name)
    ∷ []

abbrev pub write_updated :
    World → Actor → String → UpdateUser → User → Option User → Accounts → Answer Accounts
write_updated w actor id input before none a = denied unknown_role
write_updated w actor id input before (some u) a =
    let updated = with_fields input u in
    audited w (user_row actor "user.update" id (some (summary before)) (some (summary updated)))
      (record a { users = write_user id updated a.users })

abbrev pub update_unless :
    World → Actor → String → UpdateUser → User → Option AccountError → Accounts → Answer Accounts
update_unless w actor id input before (some why) a = denied why
update_unless w actor id input before none a =
    write_updated w actor id input before (with_role a.roles input.role before) a

abbrev pub update_found :
    World → Actor → String → UpdateUser → Option User → Accounts → Answer Accounts
update_found w actor id input none a = denied no_such_user
update_found w actor id input (some before) a =
    update_unless w actor id input before
      (update_refusal actor id input before
        (unheld (changes_role input before || deactivates input) a id))
      a

unfoldable pub update : World → Actor → String → UpdateUser → Accounts → Answer Unit × Accounts
update w actor id input a = transacted a (update_found w actor id input (find_user id a.users) a)

-- `tokens.revokeAllForUser`
abbrev pub end_sessions : World → String → Option String → Accounts → Accounts
end_sessions w id spared a = record a {
  tokens = revoke_all_for_user w.hash_token w.access_ttl w.refresh_ttl w.now id spared a.tokens;
}

-- What follows a transaction, unless it threw.
abbrev pub afterwards : (Accounts → Accounts) → Answer Unit × Accounts → Answer Unit × Accounts
afterwards f (ok done, a) = (ok done, f a)
afterwards f (denied why, a) = (denied why, a)

abbrev pub deactivation : UpdateUser
deactivation = record { display_name = none; role = none; is_active = some false }

unfoldable pub deactivate : World → Actor → String → Accounts → Answer Unit × Accounts
unfolding update
deactivate w actor id a = afterwards (end_sessions w id none) (update w actor id deactivation a)

-- `savedQuery.deleteMany({ where: { userId: id, isShared: false } })`
abbrev is_private_of : String → SavedQuery → Bool
is_private_of id q = elim q.user_id [
  | none ↦ false
  | some owner ↦ str_eq owner id && not q.is_shared
]

abbrev cleared : String → Option String → Option String
cleared id none = none
cleared id (some owner) = if str_eq owner id then none else some owner

abbrev disown_query : String → SavedQuery → SavedQuery
disown_query id q = record q { user_id = cleared id q.user_id }

abbrev disown_row : String → AuditRow → AuditRow
disown_row id r = record r { actor_user_id = cleared id r.actor_user_id }

-- `user.delete`, with what the foreign keys do: the refresh tokens go, the audit rows and the saved
-- queries lose their user.
abbrev pub delete_row : String → Accounts → Accounts
delete_row id a = record {
  users = delete_user id a.users;
  roles = a.roles;
  saved_queries = map (disown_query id) a.saved_queries;
  audit = map (disown_row id) a.audit;
  tokens = record a.tokens { rows = keep (λ t. not (str_eq t.user_id id)) a.tokens.rows };
}

abbrev pub and_then : (Accounts → Accounts) → Answer Accounts → Answer Accounts
and_then f (ok a) = ok (f a)
and_then f (denied why) = denied why

abbrev pub deletion_row : Actor → String → User → AuditRow
deletion_row actor id user =
    user_row actor "user.delete" id
      (some (
        ("email", text user.email)
        ∷ ("displayName", text user.display_name)
        ∷ ("role", text user.role)
        ∷ ("isActive", flag user.is_active)
        ∷ []))
      none

abbrev pub remove_checked :
    World → Actor → String → User → Option String → Accounts → Answer Accounts
remove_checked w actor id user (some permission) a = denied (last_holder permission)
remove_checked w actor id user none a = and_then (delete_row id) (
    audited w (deletion_row actor id user)
      (record a { saved_queries = keep (λ q. not (is_private_of id q)) a.saved_queries }))

abbrev pub remove_found : World → Actor → String → Option User → Accounts → Answer Accounts
remove_found w actor id none a = denied no_such_user
remove_found w actor id (some user) a =
    if str_eq id actor.user_id
    then denied self_deletion
    else remove_checked w actor id user (unheld true a id) a

unfoldable pub remove : World → Actor → String → Accounts → Answer Unit × Accounts
remove w actor id a = transacted a (remove_found w actor id (find_user id a.users) a)
