-- ===== src/Auth/Accounts/Sessions.antt =====
-- What users.service.ts leaves of a user's sessions in the table of token.service.ts.
use nexuspuppet.Base.{
  String, Bool, true, false, not, ◌&&◌, Option, none, some, List, [], ◌∷◌, ◌≡◌, arith, str_eq,
  if◌then◌else◌, keep, All, Bool-cases, inl, inr,
}
use nexuspuppet.Auth.Tokens.{RefreshToken, is_unset}
use nexuspuppet.Auth.Tokens.Revoked.{revoke_all_for_user-every}
use nexuspuppet.Auth.Accounts.{
  self_deletion, Accounts, Actor, World, Answer, ok, denied, User, transacted, find_user,
}
use nexuspuppet.Auth.Accounts.Users.{
  MoveAuthSource, afterwards, end_sessions, deactivate, remove, remove_found, remove_checked,
  unheld, delete_row, and_then,
}
use nexuspuppet.Auth.Accounts.Secrets.{reset_password, move_auth_source}

-- What ends the sessions of a user.
pub data Ending (w : World) (id : String) : Answer Unit × Accounts → Type 0 where
  by_deactivate : (actor : Actor) (a : Accounts) → Ending w id (deactivate w actor id a)
  by_reset :
      (actor : Actor) (next : String) (a : Accounts)
      → Ending w id (reset_password w actor id next a)
  by_move :
      (actor : Actor) (input : MoveAuthSource) (a : Accounts)
      → Ending w id (move_auth_source w actor id input a)
  by_remove : (actor : Actor) (a : Accounts) → Ending w id (remove w actor id a)

abbrev pub HasEnded : String → RefreshToken → Type 0
HasEnded id t = (str_eq t.user_id id && is_unset t.revoked_at) ≡ false

afterwards-HasEnded :
    (w : World) (id : String) (r : Answer Unit × Accounts)
    → (afterwards (end_sessions w id none) r).0 ≡ ok tt
    → All (HasEnded id) (afterwards (end_sessions w id none) r).1.tokens.rows
afterwards-HasEnded w id (ok done, a) e =
    revoke_all_for_user-every w.hash_token w.access_ttl w.refresh_ttl w.now id a.tokens
afterwards-HasEnded w id (denied why, a) e = cc

kept_ended :
    (id : String) (rows : List RefreshToken)
    → All (HasEnded id) (keep (λ t. not (str_eq t.user_id id)) rows)
kept_ended id [] = tt
kept_ended id (t ∷ rows) = elim (Bool-cases (str_eq t.user_id id)) [
  | inl e ↦ rw e (kept_ended id rows)
  | inr e ↦ rw e (ground arith, kept_ended id rows)
]

deleted-HasEnded :
    (id : String) (a : Accounts) (answer : Answer Accounts)
    → (transacted a (and_then (delete_row id) answer)).0 ≡ ok tt
    → All (HasEnded id) (transacted a (and_then (delete_row id) answer)).1.tokens.rows
deleted-HasEnded id a (ok b) e = kept_ended id b.tokens.rows
deleted-HasEnded id a (denied why) e = cc

-- Where `remove` answers without an error it has deleted the row.
remove_found-HasEnded :
    (w : World) (actor : Actor) (id : String) (a : Accounts) (found : Option User)
    → (transacted a (remove_found w actor id found a)).0 ≡ ok tt
    → All (HasEnded id) (transacted a (remove_found w actor id found a)).1.tokens.rows
remove_found-HasEnded w actor id a none e = cc
remove_found-HasEnded w actor id a (some user) e =
    checked (str_eq id actor.user_id) (unheld true a id) e
  where
    answer : Bool → Option String → Answer Accounts
    answer self lost = if self then denied self_deletion else remove_checked w actor id user lost a

    checked :
        (self : Bool) (lost : Option String)
        → (transacted a (answer self lost)).0 ≡ ok tt
        → All (HasEnded id) (transacted a (answer self lost)).1.tokens.rows
    checked true lost f = cc
    checked false (some p) f = cc
    checked false none f = deleted-HasEnded id a _ f

-- Wherever a deactivation, a password reset, a move to another source or a removal is answered
-- without an error, no refresh token of that user can be used any more.
pub Ending-HasEnded :
    {w : World} {id : String} {r : Answer Unit × Accounts}
    → Ending w id r
    → r.0 ≡ ok tt
    → All (HasEnded id) r.1.tokens.rows
unfolding deactivate remove reset_password move_auth_source
Ending-HasEnded {w} {id} (by_deactivate actor a) e = afterwards-HasEnded w id _ e
Ending-HasEnded {w} {id} (by_reset actor next a) e = afterwards-HasEnded w id _ e
Ending-HasEnded {w} {id} (by_move actor input a) e = afterwards-HasEnded w id _ e
Ending-HasEnded {w} {id} (by_remove actor a) e =
    remove_found-HasEnded w actor id a (find_user id a.users) e
