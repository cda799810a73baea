-- ===== src/Auth/Accounts/Credentials.antt =====
-- Which accounts users.service.ts leaves with a stored password.
use nexuspuppet.Base.{
  String, Bool, not, map, keep, true, Option, none, some, List, [], ◌∷◌, ◌++◌, ◌≡◌, refl, sym, ◌∙◌,
  ap, arith, str_eq, All, Option-cases, Bool-cases, inl, inr,
}
use mathlib.Core.Path.{subst}
use mathlib.Core.Option.{some-injective}
use nexuspuppet.Auth.Accounts.{
  find_role, User, Role, Accounts, Actor, World, AuditRow, find_role_name,
}
use nexuspuppet.Auth.Accounts.Users.{
  CreateUser, UpdateUser, valid_create, is_given, is_local, new_user, update, with_role,
  with_fields, deactivate, deactivation,
}
use nexuspuppet.Auth.Accounts.Secrets.{moved}
use nexuspuppet.Auth.Accounts.Roles.{
  RoleState, CreateRole, UpdateRole, with_roles, change_role, create_role, new_role, update_role,
  redefines_built_in, lost_by, remove_role, remove_role_refusal, recorded,
}
use nexuspuppet.Auth.Accounts.Requests.{
  Step, Steps, creating, updating, deactivating, removing, changing_password, resetting_password,
  moving, creating_role, updating_role, removing_role, no_request, then_request,
}
use nexuspuppet.Auth.Accounts.Lookup.{All-write, All-delete, All-find, All-snoc}
use nexuspuppet.Auth.Accounts.Writes.{
  Holds, create-Holds, update-Holds, remove-Holds, afterwards-Holds,
}
use nexuspuppet.Auth.Accounts.SecretWrites.{
  change_own_password-Holds, reset_password-Holds, move_auth_source-Holds,
}

-- A password is stored exactly for an account that authenticates locally.
abbrev pub OwnsPassword : User → Type 0
OwnsPassword u = is_given u.password_hash ≡ is_local u.auth_source

abbrev Owned : List User → List Role → Type 0
Owned users roles = All OwnsPassword users

new_user-OwnsPassword :
    (w : World) (id : String) (input : CreateUser) (role : Role)
    → valid_create input ≡ true
    → OwnsPassword (new_user w id input role)
unfolding valid_create
new_user-OwnsPassword w id input role h = ground (arith, h)

with_role-OwnsPassword :
    (roles : List Role) (role : Option String) (before u : User)
    → with_role roles role before ≡ some u
    → OwnsPassword before
    → OwnsPassword u
with_role-OwnsPassword roles none before u e h = subst OwnsPassword (some-injective before u e) h
with_role-OwnsPassword roles (some name) before u e h =
    elim (Option-cases (find_role_name name roles)) [
      | inl n ↦ ground (arith, n, e)
      | inr (r, f) ↦
          subst OwnsPassword
            (some-injective (record before { role = name; role_id = r.id }) u
              (ground (arith, f, e)))
            h
    ]

moved-OwnsPassword :
    (w : World) (target : String) (password : Option String) (before : User)
    → OwnsPassword (moved w target password before)
moved-OwnsPassword w target password before = ground arith

update-Owned :
    (w : World) (actor : Actor) (id : String) (input : UpdateUser) (a : Accounts)
    → Holds Owned a
    → Holds Owned (update w actor id input a).1
update-Owned w actor id input a h = update-Holds Owned w actor id a h input λ before u c.
    All-write OwnsPassword id (with_fields input u) a.users
      (with_role-OwnsPassword a.roles input.role before u c.named
        (All-find OwnsPassword id a.users before c.found h))
      h

-- The operations on roles leave the users alone.
same_users-recorded :
    (w : World) (answered : Bool) (row : AuditRow) (s : RoleState)
    → (recorded w answered row s).1.accounts.users ≡ s.accounts.users
unfolding recorded
same_users-recorded w answered row s = elim (Bool-cases (w.accepts row)) [
  | inl e ↦ rw e refl
  | inr e ↦ rw e refl
]

module _ (w : World) (actor : Actor) (answered : Bool) (id : String) (s : RoleState) where
  same_users-create_role :
      (input : CreateRole)
      → (create_role w actor answered id input s).1.accounts.users ≡ s.accounts.users
  unfolding create_role
  same_users-create_role input = elim (Option-cases (find_role_name input.name s.accounts.roles)) [
    | inl e ↦ rw e (
        same_users-recorded w answered _
          (with_roles (s.accounts.roles ++ new_role id input ∷ []) s))
    | inr (r, e) ↦ rw e refl
  ]

  same_users-update_role :
      (input : UpdateRole)
      → (update_role w actor answered id input s).1.accounts.users ≡ s.accounts.users
  unfolding update_role
  same_users-update_role input = elim (Option-cases (find_role id s.accounts.roles)) [
    | inl e ↦ rw e refl
    | inr (before, e) ↦ rw e (elim (Bool-cases (redefines_built_in before input)) [
      | inl f ↦ rw f refl
      | inr f ↦ rw f (elim (Option-cases (lost_by s.accounts before.name input.permissions)) [
        | inl g ↦ rw g (
            same_users-recorded w answered _
              (with_roles (map (change_role id input) s.accounts.roles) s))
        | inr (p, g) ↦ rw g refl
      ])
    ])
  ]

  same_users-remove_role : (remove_role w actor answered id s).1.accounts.users ≡ s.accounts.users
  unfolding remove_role
  same_users-remove_role = elim (Option-cases (find_role id s.accounts.roles)) [
    | inl e ↦ rw e refl
    | inr (role, e) ↦ rw e (elim (Option-cases (remove_role_refusal w role s.accounts)) [
      | inl f ↦ rw f (
          same_users-recorded w answered _
            (with_roles (keep (λ r. not (str_eq r.id role.id)) s.accounts.roles) s))
      | inr (why, f) ↦ rw f refl
    ])
  ]

Step-Owned : {s t : RoleState} → Step s t → Holds Owned s.accounts → Holds Owned t.accounts
unfolding deactivate
Step-Owned (creating w actor id input s valid) h =
    create-Holds Owned w actor id s.accounts h input λ role e.
      All-snoc OwnsPassword s.accounts.users (new_user w id input role) h
        (new_user-OwnsPassword w id input role valid)
Step-Owned (updating w actor id input s) h = update-Owned w actor id input s.accounts h
Step-Owned (deactivating w actor id s) h =
    afterwards-Holds Owned w id none (update w actor id deactivation s.accounts)
      (update-Owned w actor id deactivation s.accounts h)
Step-Owned (removing w actor id s) h =
    remove-Holds Owned w actor id s.accounts h λ e. All-delete OwnsPassword id s.accounts.users h
Step-Owned (changing_password w actor current next spared s) h =
    change_own_password-Holds Owned w actor current next spared s.accounts h λ user stored e f.
      let before = All-find OwnsPassword actor.user_id s.accounts.users user e h in
      All-write OwnsPassword actor.user_id _ s.accounts.users (sym (ap is_given f) ∙ before) h
Step-Owned (resetting_password w actor id next s) h =
    reset_password-Holds Owned w actor id s.accounts h next
      λ user e f. All-write OwnsPassword id _ s.accounts.users (sym f) h
Step-Owned (moving w actor id input s) h =
    move_auth_source-Holds Owned w actor id s.accounts h input λ user e.
      All-write OwnsPassword id _ s.accounts.users
        (moved-OwnsPassword w (w.normalize input.auth_source) input.password user) h
Step-Owned (creating_role w actor answered id input s fresh) h =
    subst (All OwnsPassword) (sym (same_users-create_role w actor answered id s input)) h
Step-Owned (updating_role w actor answered id input s) h =
    subst (All OwnsPassword) (sym (same_users-update_role w actor answered id s input)) h
Step-Owned (removing_role w actor answered id s) h =
    subst (All OwnsPassword) (sym (same_users-remove_role w actor answered id s)) h

-- Whatever is asked of the two services, one request after the other and each answered or refused,
-- with new accounts that pass the schema and new roles of fresh ids, a password stays stored exactly
-- for the accounts that authenticate locally: an account of a directory never has one.
pub Steps-OwnsPassword :
    {s t : RoleState}
    → Steps s t
    → All OwnsPassword s.accounts.users
    → All OwnsPassword t.accounts.users
Steps-OwnsPassword (no_request s) h = h
Steps-OwnsPassword (then_request steps step) h = Step-Owned step (Steps-OwnsPassword steps h)
