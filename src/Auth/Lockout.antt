-- ===== src/Auth/Lockout.antt =====
-- `authenticate` of apps/api/src/auth/local-auth.provider.ts: local passwords and the lock after
-- failures in a row.
pub mod Laws
use nexuspuppet.Base.{
  ℕ, ◌+◌, ◌*◌, String, Bool, true, false, not, Option, none, some, List, [], ◌∷◌, str_eq, ltb, leb,
  ◌==◌, if◌then◌else◌,
}
use nexuspuppet.Base.Dict.{Dict, get, put}
use nexuspuppet.Value.Text.{trim}

-- The columns of a row of `User` that a sign-in reads and writes.
pub record User : Type 0 where
  pub id : String
  pub email : String
  pub display_name : String
  pub role : String
  pub auth_source : String
  pub is_active : Bool
  pub password_hash : Option String
  pub failed_login_attempts : ℕ
  pub locked_until : Option ℕ
  pub last_login_at : Option ℕ

pub record LockoutPolicy : Type 0 where
  pub max_failed_attempts : ℕ
  pub lockout_minutes : ℕ

pub record Credentials : Type 0 where
  pub email : String
  pub password : String

pub record LocalPrincipal : Type 0 where
  pub user_id : String
  pub email : String
  pub display_name : String
  pub role : String
  pub auth_source : String

-- `toPrincipal`
abbrev pub to_principal : User → LocalPrincipal
to_principal u = record {
  user_id = u.id;
  email = u.email;
  display_name = u.display_name;
  role = u.role;
  auth_source = u.auth_source;
}

-- The principal, or the reason that is given.
pub data AuthResult : Type 0 where
  accepted : LocalPrincipal → AuthResult
  invalid_credentials account_disabled : AuthResult

unfoldable pub is_locked : ℕ → Option ℕ → Bool
is_locked now none = false
is_locked now (some until) = ltb now until

unfoldable pub lock_expired : ℕ → Option ℕ → Bool
lock_expired now none = false
lock_expired now (some until) = leb until now

-- `nextAttemptCount`
unfoldable pub next_attempt_count : ℕ → User → ℕ
unfolding lock_expired
next_attempt_count now u =
    if lock_expired now u.locked_until then 1 else u.failed_login_attempts + 1

-- `recordFailure` of a user whose row can be written.
unfoldable pub record_failure : LockoutPolicy → ℕ → User → User
unfolding is_locked next_attempt_count
record_failure policy now u =
    let attempts =
      if is_locked now u.locked_until
      then u.failed_login_attempts + 1
      else next_attempt_count now u in
    let locked = leb policy.max_failed_attempts attempts in
    if policy.max_failed_attempts == 0 then u else record u {
      failed_login_attempts = (if locked then 0 else attempts);
      locked_until =
          (if locked then some (now + policy.lockout_minutes * 60000) else u.locked_until);
    }

abbrev pub with_hash : Option String → User → User
with_hash none u = u
with_hash (some upgraded) u = record u { password_hash = some upgraded }

-- What a right password writes, with the upgraded hash if there is one.
unfoldable pub record_success : ℕ → Option String → User → User
record_success now upgraded u = record (with_hash upgraded u) {
  last_login_at = some now;
  failed_login_attempts = 0;
  locked_until = none;
}

-- The check of a password against a stored hash; lower-casing; the policy; whether a failure can be
-- written; and the upgrade of a hash, if it is due and succeeds.
module _ (verify_password : String → String → Bool) (to_lower : String → String)
    (policy : LockoutPolicy) where
  -- `normalizeEmail`
  abbrev pub normalize_email : String → String
  normalize_email email = to_lower (trim email)

  abbrev counted : Bool → ℕ → User → Dict User → Dict User
  counted true now u users = put users u.email (record_failure policy now u)
  counted false now u users = users

  abbrev checked : Bool → ℕ → Option String → User → Dict User → Bool → AuthResult × Dict User
  checked stored now upgraded u users false = (invalid_credentials, counted stored now u users)
  checked stored now upgraded u users true =
      if u.is_active
      then (accepted (to_principal u), put users u.email (record_success now upgraded u))
      else (account_disabled, users)

  abbrev with_password :
      Bool → ℕ → Option String → String → User → Dict User → Option String → AuthResult × Dict User
  with_password stored now upgraded password u users none = (invalid_credentials, users)
  with_password stored now upgraded password u users (some hash) =
      if is_locked now u.locked_until
      then (invalid_credentials, users)
      else checked stored now upgraded u users (verify_password password hash)

  abbrev found :
      Bool → ℕ → Option String → String → Dict User → Option User → AuthResult × Dict User
  found stored now upgraded password users none = (invalid_credentials, users)
  found stored now upgraded password users (some u) =
      with_password stored now upgraded password u users u.password_hash

  -- The users are kept by their email. The clock is read once for a sign-in.
  unfoldable pub authenticate :
      Bool → ℕ → Option String → Credentials → Dict User → AuthResult × Dict User
  unfolding get put record_failure record_success trim
  authenticate stored now upgraded credentials users =
      found stored now upgraded credentials.password users
        (get users (normalize_email credentials.email))

-- `resolve`
unfoldable pub resolve_user : String → Dict User → Option LocalPrincipal
resolve_user user_id [] = none
resolve_user user_id ((email, u) ∷ users) =
    let rest = resolve_user user_id users in
    if str_eq u.id user_id then (if u.is_active then some (to_principal u) else none) else rest
