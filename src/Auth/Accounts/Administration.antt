-- ===== src/Auth/Accounts/Administration.antt =====
-- Requests to users.service.ts and roles.service.ts, and who can administer the deployment after
-- them.
use nexuspuppet.Base.{
  String, Bool, false, not, none, some, List, [], ◌∷◌, ◌++◌, map, ◌≡◌, refl, arith, str_eq, any,
  keep, Option-cases, Bool-cases, inl, inr,
}
use nexuspuppet.Auth.Accounts.{Role, Accounts, Actor, World, AuditRow, find_role, find_role_name}
use nexuspuppet.Auth.Accounts.Users.{update, deactivate, deactivation}
use nexuspuppet.Auth.Accounts.Requests.{
  Step, Steps, creating, updating, deactivating, removing, changing_password, resetting_password,
  moving, creating_role, updating_role, removing_role, no_request, then_request,
}
use nexuspuppet.Auth.Accounts.Roles.{
  with_roles, RoleState, CreateRole, UpdateRole, create_role, new_role, update_role,
  update_role_unless, redefines_built_in, lost_by, change_role, remove_role, remove_role_unless,
  remove_role_refusal, recorded,
}
use nexuspuppet.Auth.Accounts.Lookup.{count_none}
use nexuspuppet.Auth.Accounts.RoleWrites.{
  added-RoleIds, added-InLockstep, added-holds, kept-IsAdministrable, changed-RoleIds,
  changed-InLockstep, changed-IsAdministrable,
}
use nexuspuppet.Auth.Accounts.RoleRemoval.{removed-RoleIds, removed-InLockstep, removed-holds}
use nexuspuppet.Auth.Accounts.Writes.{afterwards-Holds}
use nexuspuppet.Auth.Accounts.SecretWrites.{
  change_own_password-Holds, reset_password-Holds, move_auth_source-Holds,
}
use nexuspuppet.Auth.Accounts.Soundness.{
  IsSound, Sound, create-Sound, update-Sound, remove-Sound, quiet-Sound,
}

module _ (w : World) (answered : Bool) where
  recorded-Sound :
      (row : AuditRow) (s : RoleState)
      → Sound s.accounts
      → Sound (recorded w answered row s).1.accounts
  unfolding recorded
  recorded-Sound row s h = elim (Bool-cases (w.accepts row)) [ inl e ↦ rw e h | inr e ↦ rw e h ]

  create_role-Sound :
      (actor : Actor) (id : String) (input : CreateRole) (s : RoleState)
      → find_role id s.accounts.roles ≡ none
      → Sound s.accounts
      → Sound (create_role w actor answered id input s).1.accounts
  unfolding create_role
  create_role-Sound actor id input s fresh (ids, lock, admin) =
      elim (Option-cases (find_role_name input.name s.accounts.roles)) [
        | inl e ↦ rw e (
            recorded-Sound _ (with_roles (roles ++ new_role id input ∷ []) s) (
              added-RoleIds roles (new_role id input) fresh ids,
              added-InLockstep roles (new_role id input) s.accounts.users lock,
              kept-IsAdministrable roles (roles ++ new_role id input ∷ []) s.accounts.users
                  (added-holds roles (new_role id input)) admin,
            ))
        | inr (r, e) ↦ rw e (ids, lock, admin)
      ]
    where
      roles : List Role
      roles = s.accounts.roles

  update_role-Sound :
      (actor : Actor) (id : String) (input : UpdateRole) (s : RoleState)
      → Sound s.accounts
      → Sound (update_role w actor answered id input s).1.accounts
  unfolding update_role
  update_role-Sound actor id input s (ids, lock, admin) =
      elim (Option-cases (find_role id s.accounts.roles)) [
        | inl e ↦ rw e (ids, lock, admin)
        | inr (before, e) ↦ rw e (elim (Bool-cases (redefines_built_in before input)) [
          | inl f ↦ rw f (ids, lock, admin)
          | inr f ↦ rw f (unless before e)
        ])
      ]
    where
      unless :
          (before : Role)
          → find_role id s.accounts.roles ≡ some before
          → Sound
              (update_role_unless w actor answered id input before
                (lost_by s.accounts before.name input.permissions)
                s).1.accounts
      unless before e = elim (Option-cases (lost_by s.accounts before.name input.permissions)) [
        | inl g ↦ rw g (
            recorded-Sound _ (with_roles (map (change_role id input) s.accounts.roles) s) (
              changed-RoleIds id input s.accounts.roles ids,
              changed-InLockstep id input s.accounts.roles s.accounts.users lock,
              changed-IsAdministrable id input s.accounts before e g admin,
            ))
        | inr (p, g) ↦ rw g (ids, lock, admin)
      ]

  nobody_holds :
      (role : Role) (a : Accounts)
      → remove_role_refusal w role a ≡ none
      → any (λ u. str_eq u.role_id role.id) a.users ≡ false
  nobody_holds role a h = ground (arith, h, count_none (λ u. str_eq u.role_id role.id) a.users)

  remove_role-Sound :
      (actor : Actor) (id : String) (s : RoleState)
      → Sound s.accounts
      → Sound (remove_role w actor answered id s).1.accounts
  unfolding remove_role
  remove_role-Sound actor id s (ids, lock, admin) =
      elim (Option-cases (find_role id s.accounts.roles)) [
        | inl e ↦ rw e (ids, lock, admin)
        | inr (role, e) ↦ rw e (unless role)
      ]
    where
      unless :
          (role : Role)
          → Sound
              (remove_role_unless w actor answered role
                (remove_role_refusal w role s.accounts)
                s).1.accounts
      unless role = elim (Option-cases (remove_role_refusal w role s.accounts)) [
        | inl f ↦
            let n = nobody_holds role s.accounts f in
            rw f (
              recorded-Sound _
                (with_roles (keep (λ r. not (str_eq r.id role.id)) s.accounts.roles) s)
                (
                  removed-RoleIds role.id s.accounts.roles ids,
                  removed-InLockstep role.id s.accounts.roles s.accounts.users n lock,
                  (
                    removed-holds role.id s.accounts.roles "users:manage" s.accounts.users n lock
                        admin.0,
                    removed-holds role.id s.accounts.roles "settings:manage" s.accounts.users n lock
                        admin.1,
                  ),
                ))
        | inr (why, f) ↦ rw f (ids, lock, admin)
      ]

Step-Sound : {s t : RoleState} → Step s t → Sound s.accounts → Sound t.accounts
unfolding deactivate
Step-Sound (creating w actor id input s valid) h = create-Sound w actor id input s.accounts h
Step-Sound (updating w actor id input s) h = update-Sound w actor id input s.accounts h
Step-Sound (deactivating w actor id s) h =
    afterwards-Holds IsSound w id none (update w actor id deactivation s.accounts)
      (update-Sound w actor id deactivation s.accounts h)
Step-Sound (removing w actor id s) h = remove-Sound w actor id s.accounts h
Step-Sound (changing_password w actor current next spared s) h =
    change_own_password-Holds IsSound w actor current next spared s.accounts h
      λ user stored e f. quiet-Sound s.accounts actor.user_id user _ h e refl refl refl
Step-Sound (resetting_password w actor id next s) h =
    reset_password-Holds IsSound w actor id s.accounts h next
      λ user e f. quiet-Sound s.accounts id user _ h e refl refl refl
Step-Sound (moving w actor id input s) h =
    move_auth_source-Holds IsSound w actor id s.accounts h input
      λ user e. quiet-Sound s.accounts id user _ h e refl refl refl
Step-Sound (creating_role w actor answered id input s fresh) h =
    create_role-Sound w answered actor id input s fresh h
Step-Sound (updating_role w actor answered id input s) h =
    update_role-Sound w answered actor id input s h
Step-Sound (removing_role w actor answered id s) h = remove_role-Sound w answered actor id s h

-- Whatever is asked of the two services, one request after the other and each answered or refused,
-- with new accounts that pass the schema and new roles of fresh ids, a deployment in which active
-- users hold both administrative permissions, roles are found by their ids and the name of each
-- user's role is that of the role by its id stays one.
pub Steps-IsSound :
    {s t : RoleState}
    → Steps s t
    → IsSound s.accounts.users s.accounts.roles
    → IsSound t.accounts.users t.accounts.roles
Steps-IsSound (no_request s) h = h
Steps-IsSound (then_request steps step) h = Step-Sound step (Steps-IsSound steps h)
