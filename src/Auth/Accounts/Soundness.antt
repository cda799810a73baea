-- ===== src/Auth/Accounts/Soundness.antt =====
-- What a sound deployment is, and the requests to users.service.ts on one.
use nexuspuppet.Base.{String, some, List, [], ◌∷◌, ◌≡◌, ◌∙◌, ap, All}
use nexuspuppet.Auth.Accounts.{
  User, Role, Accounts, Actor, World, find_role, find_role_name, find_user, write_user, holds,
}
use nexuspuppet.Auth.Accounts.Users.{CreateUser, UpdateUser, new_user, create, update, remove}
use nexuspuppet.Auth.Accounts.Lookup.{
  All-write, All-delete, All-find, All-find_role_name, All-snoc, any-append,
}
use nexuspuppet.Auth.Accounts.Lockstep.{InLockstep, RoleIds, IsAdministrable, with_role-InLockstep}
use nexuspuppet.Auth.Accounts.Guard.{
  change-IsAdministrable, delete-IsAdministrable, quiet-IsAdministrable,
}
use nexuspuppet.Auth.Accounts.Writes.{Holds, create-Holds, update-Holds, remove-Holds}

-- Roles are found by their ids, each user's role name is that of the role by its id, and both
-- administrative permissions are held by active users.
abbrev pub IsSound : List User → List Role → Type 0
IsSound users roles = RoleIds roles × All (InLockstep roles) users × IsAdministrable users roles

abbrev pub Sound : Accounts → Type 0
Sound = Holds IsSound

pub create-Sound :
    (w : World) (actor : Actor) (id : String) (input : CreateUser) (a : Accounts)
    → Sound a
    → Sound (create w actor id input a).1
create-Sound w actor id input a (ids, lock, (f, g)) =
    create-Holds IsSound w actor id a (ids, lock, (f, g)) input
      λ role e.
        let found =
          All-find_role_name (λ r. find_role r.id a.roles ≡ some r) input.role a.roles role e ids in
        (
          ids,
          All-snoc (InLockstep a.roles) a.users (new_user w id input role) lock (role, found, e),
          (
            any-append (holds a.roles "users:manage") a.users (new_user w id input role ∷ []) f,
            any-append (holds a.roles "settings:manage") a.users (new_user w id input role ∷ []) g,
          ),
        )

pub update-Sound :
    (w : World) (actor : Actor) (id : String) (input : UpdateUser) (a : Accounts)
    → Sound a
    → Sound (update w actor id input a).1
update-Sound w actor id input a (ids, lock, admin) =
    update-Holds IsSound w actor id a (ids, lock, admin) input
      λ before u c.
        let l = All-find (InLockstep a.roles) id a.users before c.found lock in
        (
          ids,
          All-write (InLockstep a.roles) id _ a.users
              (with_role-InLockstep a.roles input before u ids l c.named) lock,
          change-IsAdministrable a id input before u ids l c admin,
        )

pub remove-Sound :
    (w : World) (actor : Actor) (id : String) (a : Accounts)
    → Sound a
    → Sound (remove w actor id a).1
remove-Sound w actor id a (ids, lock, admin) =
    remove-Holds IsSound w actor id a (ids, lock, admin)
      λ e. (ids, All-delete (InLockstep a.roles) id a.users lock, delete-IsAdministrable a id e)

-- A new password, or another source, leaves the role and the activity alone.
pub quiet-Sound :
    (a : Accounts) (id : String) (before new : User)
    → Sound a
    → find_user id a.users ≡ some before
    → new.role ≡ before.role
    → new.role_id ≡ before.role_id
    → new.is_active ≡ before.is_active
    → IsSound (write_user id new a.users) a.roles
quiet-Sound a id before new (ids, lock, admin) e n r b =
    let (role, f, g) = All-find (InLockstep a.roles) id a.users before e lock in
    (
      ids,
      All-write (InLockstep a.roles) id new a.users
          (role, ap (λ x. find_role x a.roles) r ∙ f, ap (λ x. find_role_name x a.roles) n ∙ g)
          lock,
      quiet-IsAdministrable a id before new e r b admin,
    )
