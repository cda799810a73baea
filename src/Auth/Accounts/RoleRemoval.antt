-- ===== src/Auth/Accounts/RoleRemoval.antt =====
-- What the removal of a role by roles.service.ts leaves of the lockstep and of the permissions held.
use nexuspuppet.Base.{
  String, true, false, not, some, List, [], ◌∷◌, ◌≡◌, arith, str_eq, eq_iff, any, keep, All,
  Bool-cases, inl, inr,
}
use nexuspuppet.Auth.Accounts.{User, Role, find_role, holds}
use nexuspuppet.Auth.Accounts.Lookup.{find_role-id, find_role-keep, find_role_name-keep}
use nexuspuppet.Auth.Accounts.Lockstep.{InLockstep, RoleIds}
use nexuspuppet.Auth.Accounts.RoleWrites.{holds_by}

-- A role that nobody holds may go.
module _ (gone : String) (roles : List Role) where
  abbrev rest : List Role
  rest = keep (λ r. not (str_eq r.id gone)) roles

  found_in_rest :
      (u : User) (r : Role)
      → str_eq u.role_id gone ≡ false
      → find_role u.role_id roles ≡ some r
      → str_eq r.id gone ≡ false
  found_in_rest u r n e = ground (
    arith,
    n,
    find_role-id u.role_id roles r e,
    eq_iff r.id u.role_id,
    eq_iff r.id gone,
    eq_iff u.role_id gone,
  )

  pub removed-InLockstep :
      (users : List User)
      → any (λ u. str_eq u.role_id gone) users ≡ false
      → All (InLockstep roles) users
      → All (InLockstep rest) users
  removed-InLockstep [] n h = tt
  removed-InLockstep (u ∷ us) n ((r, e, f), h) =
      let other = found_in_rest u r (ground (arith, n)) e in
      (
        (
          r,
          find_role-keep gone u.role_id roles r e other,
          find_role_name-keep gone u.role roles r f other,
        ),
        removed-InLockstep us (ground (arith, n)) h,
      )

  pub removed-holds :
      (p : String) (users : List User)
      → any (λ u. str_eq u.role_id gone) users ≡ false
      → All (InLockstep roles) users
      → any (holds roles p) users ≡ true
      → any (holds rest p) users ≡ true
  removed-holds p [] n l h = ground (arith, h)
  removed-holds p (u ∷ us) n ((r, e, f), l) h =
      let other = found_in_rest u r (ground (arith, n)) e in
      let before = holds_by roles p u r e in
      let after = holds_by rest p u r (find_role-keep gone u.role_id roles r e other) in
      ground (arith, h, n, before, after, removed-holds p us (ground (arith, n)) l)

  pub removed-RoleIds : RoleIds roles → RoleIds rest
  removed-RoleIds h = each roles h
    where
      each :
          (rs : List Role)
          → All (λ r. find_role r.id roles ≡ some r) rs
          → All (λ r. find_role r.id rest ≡ some r) (keep (λ r. not (str_eq r.id gone)) rs)
      each [] q = tt
      each (r ∷ rs) (e, q) = elim (Bool-cases (str_eq r.id gone)) [
        | inl f ↦ rw f (each rs q)
        | inr f ↦ rw f (find_role-keep gone r.id roles r e f, each rs q)
      ]
