-- ===== src/Auth/Accounts/Secrets.antt =====
-- apps/api/src/auth/users.service.ts: passwords, and the move to another authentication source.
use nexuspuppet.Base.{
  String, not, ◌&&◌, Option, none, some, [], ◌∷◌, str_eq, if◌then◌else◌, includes,
}
use nexuspuppet.Base.Dict.{Dict}
use nexuspuppet.Auth.Accounts.{
  User, Datum, text, null, Accounts, Actor, World, AccountError, Answer, denied, transacted,
  find_user, write_user, audited, user_row, no_such_user, unknown_source, same_source, own_source,
  password_missing, password_unwanted, no_local_password, wrong_password,
}
use nexuspuppet.Auth.Accounts.Users.{
  or_else, is_given, is_local, MoveAuthSource, afterwards, end_sessions,
}

-- Writes a user, and the audit row of it.
abbrev pub write_audited :
    World
    → Actor
    → String
    → String
    → User
    → Option (Dict Datum)
    → Option (Dict Datum)
    → Accounts
    → Answer Accounts
write_audited w actor action id new before after a =
    audited w (user_row actor action id before after)
      (record a { users = write_user id new a.users })

abbrev pub change_verified :
    World → Actor → String → String → User → Option String → Accounts → Answer Accounts
change_verified w actor current next user none a = denied no_local_password
change_verified w actor current next user (some stored) a =
    if not (w.verify_password current stored)
    then denied wrong_password
    else write_audited w actor "user.password.change" actor.user_id
        (record user { password_hash = some (w.hash_password next) }) none none a

abbrev pub change_found : World → Actor → String → String → Option User → Accounts → Answer Accounts
change_found w actor current next none a = denied no_local_password
change_found w actor current next (some user) a =
    change_verified w actor current next user user.password_hash a

-- `changeOwnPassword`, with the caller's own refresh token.
unfoldable pub change_own_password :
    World → Actor → String → String → Option String → Accounts → Answer Unit × Accounts
change_own_password w actor current next spared a =
    afterwards (end_sessions w actor.user_id spared)
      (transacted a (change_found w actor current next (find_user actor.user_id a.users) a))

abbrev pub reset_found : World → Actor → String → String → Option User → Accounts → Answer Accounts
reset_found w actor id next none a = denied no_such_user
reset_found w actor id next (some user) a =
    if not (is_local user.auth_source)
    then denied no_local_password
    else write_audited w actor "user.password.reset" id
        (record user { password_hash = some (w.hash_password next) }) none
        (some (("email", text user.email) ∷ [])) a

unfoldable pub reset_password : World → Actor → String → String → Accounts → Answer Unit × Accounts
reset_password w actor id next a =
    afterwards (end_sessions w id none)
      (transacted a (reset_found w actor id next (find_user id a.users) a))

-- The guards of `moveAuthSource` on a row that was found, in their order.
abbrev pub move_refusal :
    World → Actor → String → String → Option String → User → Option AccountError
move_refusal w actor id target password before =
    if str_eq before.auth_source target
    then some same_source
    else if str_eq id actor.user_id
    then some own_source
    else if not (includes w.sources target)
    then some unknown_source
    else if is_local target && not (is_given password)
    then some password_missing
    else if not (is_local target) && is_given password
    then some password_unwanted
    else none

abbrev datum_of : Option String → Datum
datum_of none = null
datum_of (some s) = text s

abbrev source_summary : User → Dict Datum
source_summary u =
    ("email", text u.email)
    ∷ ("authSource", text u.auth_source)
    ∷ ("directoryId", datum_of u.directory_id)
    ∷ []

abbrev pub moved : World → String → Option String → User → User
moved w target password before = record before {
  auth_source = target;
  password_hash = if is_local target then some (w.hash_password (or_else password "")) else none;
  directory_id = none;
}

abbrev pub move_unless :
    World
    → Actor
    → String
    → String
    → Option String
    → User
    → Option AccountError
    → Accounts
    → Answer Accounts
move_unless w actor id target password before (some why) a = denied why
move_unless w actor id target password before none a =
    let new = moved w target password before in
    write_audited w actor "user.auth-source.move" id new (some (source_summary before))
      (some (source_summary new)) a

abbrev pub move_found :
    World → Actor → String → String → Option String → Option User → Accounts → Answer Accounts
move_found w actor id target password none a = denied no_such_user
move_found w actor id target password (some before) a =
    move_unless w actor id target password before (move_refusal w actor id target password before) a

-- `moveAuthSource`, given the target in lower case and trimmed.
unfoldable pub move_auth_source :
    World → Actor → String → MoveAuthSource → Accounts → Answer Unit × Accounts
move_auth_source w actor id input a = afterwards (end_sessions w id none) (
    transacted a (
      move_found w actor id (w.normalize input.auth_source) input.password (find_user id a.users)
        a))
