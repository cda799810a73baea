-- ===== src/Auth/Accounts/Lockstep.antt =====
-- The columns `role` and `roleId` of users.service.ts: what their lockstep is, and the writes of a
-- user.
use mathlib.Core.Path.{subst}
use mathlib.Core.Option.{some-injective}
use nexuspuppet.Base.{
  String, true, false, not, Option, none, some, List, ◌≡◌, sym, ◌∙◌, ap, arith, str_eq, eq_iff, All,
  any, Option-cases, inl, inr,
}
use nexuspuppet.Auth.Accounts.{User, Role, find_role, find_role_name, holds, grants}
use nexuspuppet.Auth.Accounts.Users.{UpdateUser, with_role, with_fields, changes_role, deactivates}
use nexuspuppet.Auth.Accounts.Lookup.{All-find_role_name}

-- The role of a user by its id is the role by its name.
abbrev pub InLockstep : List Role → User → Type 0
InLockstep roles u =
    (r : Role) × (find_role u.role_id roles ≡ some r) × (find_role_name u.role roles ≡ some r)

-- Every role is found by its id.
abbrev pub RoleIds : List Role → Type 0
RoleIds roles = All (λ r. find_role r.id roles ≡ some r) roles

-- For both of the administrative permissions, an active user's role grants it.
abbrev pub IsAdministrable : List User → List Role → Type 0
IsAdministrable users roles =
    (any (holds roles "users:manage") users ≡ true)
    × (any (holds roles "settings:manage") users ≡ true)

with_role_found :
    (roles : List Role) (name : String) (before u : User) (r : Role)
    → find_role_name name roles ≡ some r
    → with_role roles (some name) before ≡ some u
    → record before { role = name; role_id = r.id } ≡ u
with_role_found roles name before u r f e =
    some-injective (record before { role = name; role_id = r.id }) u (ground (arith, f, e))

lockstep_by :
    (roles : List Role) (role : Option String) (before u : User)
    → RoleIds roles
    → InLockstep roles before
    → with_role roles role before ≡ some u
    → InLockstep roles u
lockstep_by roles none before u ids l e = subst (InLockstep roles) (some-injective before u e) l
lockstep_by roles (some name) before u ids l e = elim (Option-cases (find_role_name name roles)) [
  | inl n ↦ ground (arith, n, e)
  | inr (r, f) ↦
      subst (InLockstep roles) (with_role_found roles name before u r f e)
        (r, All-find_role_name (λ x. find_role x.id roles ≡ some x) name roles r f ids, f)
]

pub with_role-InLockstep :
    (roles : List Role) (input : UpdateUser) (before u : User)
    → RoleIds roles
    → InLockstep roles before
    → with_role roles input.role before ≡ some u
    → InLockstep roles (with_fields input u)
with_role-InLockstep roles input before u ids l e = lockstep_by roles input.role before u ids l e

-- A role of the same name is the same role.
same_role :
    (roles : List Role) (role : Option String) (before u : User)
    → RoleIds roles
    → InLockstep roles before
    → with_role roles role before ≡ some u
    → elim role [ none ↦ false | some name ↦ not (str_eq name before.role) ] ≡ false
    → (find_role u.role_id roles ≡ find_role before.role_id roles)
      × (u.is_active ≡ before.is_active)
same_role roles none before u ids l e f =
    let s : before ≡ u = some-injective before u e in
    (sym (ap (λ x. find_role x.role_id roles) s), sym (ap (λ x. x.is_active) s))
same_role roles (some name) before u ids (r, by_id, by_name) e f =
    let q : name ≡ before.role = ground (arith, f, eq_iff name before.role) in
    let n : find_role_name name roles ≡ some r = ap (λ x. find_role_name x roles) q ∙ by_name in
    let s = with_role_found roles name before u r n e in
    let i = All-find_role_name (λ x. find_role x.id roles ≡ some x) name roles r n ids in
    (sym (ap (λ x. find_role x.role_id roles) s) ∙ i ∙ sym by_id, sym (ap (λ x. x.is_active) s))

-- A change that is neither of the role nor to inactive keeps what the user holds.
pub with_role-holds :
    (roles : List Role) (input : UpdateUser) (before u : User) (permission : String)
    → RoleIds roles
    → InLockstep roles before
    → with_role roles input.role before ≡ some u
    → changes_role input before ≡ false
    → deactivates input ≡ false
    → holds roles permission before ≡ true
    → holds roles permission (with_fields input u) ≡ true
with_role-holds roles input before u permission ids l e f g h =
    let (found, active) = same_role roles input.role before u ids l e f in
    let same : grants permission (find_role u.role_id roles)
        ≡ grants permission (find_role before.role_id roles) =
      ap (grants permission) found in
    ground (arith, same, active, g, h)
