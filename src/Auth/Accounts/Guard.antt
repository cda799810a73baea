-- ===== src/Auth/Accounts/Guard.antt =====
-- The guard of users.service.ts that administration survives, and the writes of users behind it.
use mathlib.Core.Path.{subst}
use nexuspuppet.Base.{
  ℕ, String, Bool, true, false, ◌||◌, none, some, List, ◌≡◌, ap, arith, ◌==◌, any, keep, length,
  Bool-cases, inl, inr,
}
use nexuspuppet.Auth.Accounts.{
  User, Accounts, find_role, find_user, write_user, delete_user, holds, holds_other, grants,
  count_others, first_unheld, administrative,
}
use nexuspuppet.Auth.Accounts.Users.{UpdateUser, changes_role, deactivates, unheld, with_fields}
use nexuspuppet.Auth.Accounts.Lookup.{count_none, any-write, any-write_other, any-delete_other}
use nexuspuppet.Auth.Accounts.Lockstep.{InLockstep, RoleIds, IsAdministrable, with_role-holds}
use nexuspuppet.Auth.Accounts.Writes.{Changed}

-- The loop finds nothing exactly where neither count is nought.
pub both_held :
    (count : String → ℕ)
    → first_unheld count administrative ≡ none
    → ((count "users:manage" == 0) ≡ false) × ((count "settings:manage" == 0) ≡ false)
both_held count h = ground (arith, h)

pub someone {ℓ} :
    {A : Type ℓ} (p : A → Bool) (l : List A) → (length (keep p l) == 0) ≡ false → any p l ≡ true
someone p l h = ground (arith, h, count_none p l)

-- What the guard of a user leaves: both permissions are held by others.
others_hold :
    (a : Accounts) (id : String)
    → unheld true a id ≡ none
    → (any (holds_other a.roles id "users:manage") a.users ≡ true)
      × (any (holds_other a.roles id "settings:manage") a.users ≡ true)
others_hold a id h =
    let (f, g) = both_held (count_others a id) h in
    (
      someone (holds_other a.roles id "users:manage") a.users f,
      someone (holds_other a.roles id "settings:manage") a.users g,
    )

pub delete-IsAdministrable :
    (a : Accounts) (id : String)
    → unheld true a id ≡ none
    → IsAdministrable (delete_user id a.users) a.roles
delete-IsAdministrable a id h =
    let (f, g) = others_hold a id h in
    (
      any-delete_other id (holds a.roles "users:manage") a.users f,
      any-delete_other id (holds a.roles "settings:manage") a.users g,
    )

pub change-IsAdministrable :
    (a : Accounts) (id : String) (input : UpdateUser) (before u : User)
    → RoleIds a.roles
    → InLockstep a.roles before
    → Changed input id a before u
    → IsAdministrable a.users a.roles
    → IsAdministrable (write_user id (with_fields input u) a.users) a.roles
change-IsAdministrable a id input before u ids l c (f, g) =
    elim (Bool-cases (changes_role input before || deactivates input)) [
      | inl e ↦
          let h : unheld true a id ≡ none = subst (λ b. unheld b a id ≡ none) e c.held in
          let (i, j) = others_hold a id h in
          (
            any-write_other id new (holds a.roles "users:manage") a.users i,
            any-write_other id new (holds a.roles "settings:manage") a.users j,
          )
      | inr e ↦ (keeps e "users:manage" f, keeps e "settings:manage" g)
    ]
  where
    new : User
    new = with_fields input u

    keeps :
        (changes_role input before || deactivates input) ≡ false
        → (permission : String) → any (holds a.roles permission) a.users ≡ true
        → any (holds a.roles permission) (write_user id new a.users) ≡ true
    keeps e permission = any-write id before new (holds a.roles permission) a.users c.found (
        with_role-holds a.roles input before u permission ids l c.named (ground (arith, e))
          (ground (arith, e)))

-- A write that leaves the role and the activity of a row alone.
pub quiet-IsAdministrable :
    (a : Accounts) (id : String) (before new : User)
    → find_user id a.users ≡ some before
    → new.role_id ≡ before.role_id
    → new.is_active ≡ before.is_active
    → IsAdministrable a.users a.roles
    → IsAdministrable (write_user id new a.users) a.roles
quiet-IsAdministrable a id before new e r b (f, g) =
    (keeps "users:manage" f, keeps "settings:manage" g)
  where
    keeps :
        (permission : String)
        → any (holds a.roles permission) a.users ≡ true
        → any (holds a.roles permission) (write_user id new a.users) ≡ true
    keeps permission =
        any-write id before new (holds a.roles permission) a.users e λ h.
          let q = ap (λ x. grants permission (find_role x a.roles)) r in ground (arith, h, q, b)
