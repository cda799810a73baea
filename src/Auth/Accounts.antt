-- ===== src/Auth/Accounts.antt =====
-- apps/api/src/auth/users.service.ts: what the accounts, the roles and their tables are, and what
-- the service reads of them.
pub mod Users
pub mod Secrets
pub mod Roles
pub mod Lookup
pub mod Writes
pub mod SecretWrites
pub mod Lockstep
pub mod Guard
pub mod RoleWrites
pub mod RoleRemoval
pub mod Requests
pub mod Soundness
pub mod Administration
pub mod Removal
pub mod Credentials
pub mod Sessions
use nexuspuppet.Base.{
  ℕ, String, Bool, true, false, not, ◌&&◌, ◌||◌, Option, none, some, List, [], ◌∷◌, ◌++◌, map,
  str_eq, ◌==◌, if◌then◌else◌, keep, length, includes, any,
}
use nexuspuppet.Base.Dict.{Dict}
use nexuspuppet.Auth.Tokens.{TokenTable}

-- A row of `User`.
pub record User : Type 0 where
  pub id : String
  pub email : String
  pub display_name : String
  pub password_hash : Option String
  pub role : String
  pub role_id : String
  pub is_active : Bool
  pub auth_source : String
  pub directory_id : Option String

-- A row of `Role`.
pub record Role : Type 0 where
  pub id : String
  pub name : String
  pub description : Option String
  pub permissions : List String
  pub built_in : Bool

-- A row of `SavedQuery`: who owns it, and whether it is shared.
pub record SavedQuery : Type 0 where
  pub user_id : Option String
  pub is_shared : Bool

-- What an audit payload holds under a name.
pub data Datum : Type 0 where
  text : String → Datum
  flag : Bool → Datum
  texts : List String → Datum
  null : Datum

pub record AuditRow : Type 0 where
  pub actor_user_id : Option String
  pub actor_email : Option String
  pub action : String
  pub entity_type : String
  pub entity_id : String
  pub before : Option (Dict Datum)
  pub after : Option (Dict Datum)
  pub ip_address : Option String
  pub user_agent : Option String

pub record Accounts : Type 0 where
  pub users : List User
  pub roles : List Role
  pub saved_queries : List SavedQuery
  pub audit : List AuditRow
  pub tokens : TokenTable

-- Who asks, and from where.
pub record Actor : Type 0 where
  pub user_id : String
  pub email : String
  pub ip_address : Option String
  pub user_agent : Option String

-- A directory mapping, by the group and the role that it names.
pub record RoleMapping : Type 0 where
  pub group_dn : String
  pub role : String

-- What a request meets: the sources that the resolver has, the audit sink, which may throw, the
-- password hash and its test, the directory mappings, the clock and what token.service.ts is
-- configured with.
pub record World : Type 0 where
  pub sources : List String
  pub accepts : AuditRow → Bool
  pub hash_password : String → String
  pub verify_password : String → String → Bool
  -- `s.trim().toLowerCase()`
  pub normalize : String → String
  pub mappings : List RoleMapping
  pub now : ℕ
  pub hash_token : String → String
  pub access_ttl : ℕ
  pub refresh_ttl : ℕ

-- What the services throw.
pub data AccountError : Type 0 where
  no_such_user no_such_role email_taken unknown_source unknown_role : AccountError
  last_holder : String → AccountError
  self_deactivation own_role directory_role self_deletion : AccountError
  same_source own_source password_missing password_unwanted : AccountError
  no_local_password wrong_password audit_failed : AccountError
  name_taken role_built_in role_held role_mapped : AccountError

pub data Answer (A : Type 0) : Type 0 where
  ok : A → Answer A
  denied : AccountError → Answer A

-- `$transaction`: what is thrown in it undoes its writes.
abbrev pub transacted : Accounts → Answer Accounts → Answer Unit × Accounts
transacted a (ok after) = (ok tt, after)
transacted a (denied why) = (denied why, a)

-- `findUnique` by the id and by the email.
abbrev pub find_user : String → List User → Option User
find_user id [] = none
find_user id (u ∷ us) = let rest = find_user id us in if str_eq u.id id then some u else rest

abbrev pub find_email : String → List User → Option User
find_email email [] = none
find_email email (u ∷ us) =
    let rest = find_email email us in if str_eq u.email email then some u else rest

-- `update` and `delete` by the id, which one row has.
abbrev pub write_user : String → User → List User → List User
write_user id new [] = []
write_user id new (u ∷ us) =
    let rest = write_user id new us in if str_eq u.id id then new ∷ us else u ∷ rest

abbrev pub delete_user : String → List User → List User
delete_user id [] = []
delete_user id (u ∷ us) = let rest = delete_user id us in if str_eq u.id id then us else u ∷ rest

abbrev pub find_role : String → List Role → Option Role
find_role id [] = none
find_role id (r ∷ rs) = let rest = find_role id rs in if str_eq r.id id then some r else rest

abbrev pub find_role_name : String → List Role → Option Role
find_role_name name [] = none
find_role_name name (r ∷ rs) =
    let rest = find_role_name name rs in if str_eq r.name name then some r else rest

abbrev pub grants : String → Option Role → Bool
grants permission none = false
grants permission (some r) = includes r.permissions permission

-- `isActive: true, roleRef: { permissions: { has } }`
abbrev pub holds : List Role → String → User → Bool
holds roles permission u = u.is_active && grants permission (find_role u.role_id roles)

-- Permissions without which nobody can administer the deployment.
abbrev pub administrative : List String
administrative = "users:manage" ∷ "settings:manage" ∷ []

abbrev pub holds_other : List Role → String → String → User → Bool
holds_other roles id permission u = not (str_eq u.id id) && holds roles permission u

-- `user.count` of the active users but one whose role has a permission.
abbrev pub count_others : Accounts → String → String → ℕ
count_others a id permission = length (keep (holds_other a.roles id permission) a.users)

-- The first permission of the loop that is not held.
abbrev pub first_unheld : (String → ℕ) → List String → Option String
first_unheld count [] = none
first_unheld count (p ∷ ps) =
    let rest = first_unheld count ps in if count p == 0 then some p else rest

-- `audit.record`, which throws where the sink does.
unfoldable pub audited : World → AuditRow → Accounts → Answer Accounts
audited w row a =
    if w.accepts row then ok (record a { audit = a.audit ++ row ∷ [] }) else denied audit_failed

abbrev pub user_row : Actor → String → String → Option (Dict Datum) → Option (Dict Datum) → AuditRow
user_row actor action id before after = record {
  actor_user_id = some actor.user_id;
  actor_email = some actor.email;
  action = action;
  entity_type = "User";
  entity_id = id;
  before = before;
  after = after;
  ip_address = actor.ip_address;
  user_agent = actor.user_agent;
}
