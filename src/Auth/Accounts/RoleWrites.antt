-- ===== src/Auth/Accounts/RoleWrites.antt =====
-- What the writes of roles.service.ts leave of the lockstep and of the permissions held.
use mathlib.Core.Option.{some-injective}
use nexuspuppet.Base.{
  String, Bool, true, false, not, ◌&&◌, ◌||◌, none, some, List, [], ◌∷◌, ◌++◌, map, ◌≡◌, sym, ◌∙◌,
  ap, arith, str_eq, eq_iff, eq_refl, ◌==◌, any, includes, All, Option-cases, Bool-cases, inl, inr,
}
use nexuspuppet.Base.Sort.{All-map_of}
use nexuspuppet.Auth.Accounts.{User, Role, Accounts, find_role, holds, grants}
use nexuspuppet.Auth.Accounts.Roles.{
  UpdateRole, change_role, lost_by, count_elsewhere, holds_elsewhere,
}
use nexuspuppet.Auth.Accounts.Lookup.{
  find_role-id, find_role-map, find_role_name-map, find_role-append, find_role_name-append,
  find_role-added, All-snoc,
}
use nexuspuppet.Auth.Accounts.Lockstep.{InLockstep, RoleIds, IsAdministrable}
use nexuspuppet.Auth.Accounts.Guard.{someone}

any_of {ℓ} :
    {A : Type ℓ} (p q : A → Bool)
    → ((x : A) → p x ≡ true → q x ≡ true)
    → (l : List A) → any p l ≡ true
    → any q l ≡ true
any_of p q k [] h = ground (arith, h)
any_of p q k (x ∷ xs) h = ground (arith, h, k x, any_of p q k xs)

All-map {κ μ} :
    (P : Role → Type κ) (Q : Role → Type μ) (f : Role → Role)
    → ((r : Role) → P r → Q (f r))
    → (l : List Role) → All P l
    → All Q (map f l)
All-map P Q f k [] h = tt
All-map P Q f k (r ∷ rs) (p, h) = (k r p, All-map P Q f k rs h)

-- The guard of a user's roles speaks of those that the role lookup finds.
pub holds_by :
    (roles : List Role) (permission : String) (u : User) (r : Role)
    → find_role u.role_id roles ≡ some r
    → holds roles permission u ≡ (u.is_active && includes r.permissions permission)
holds_by roles permission u r e = ap (λ o. u.is_active && grants permission o) e

-- A new role hides none.
pub added-RoleIds :
    (roles : List Role) (new : Role)
    → find_role new.id roles ≡ none
    → RoleIds roles
    → RoleIds (roles ++ new ∷ [])
added-RoleIds roles new e h =
    All-snoc (λ r. find_role r.id (roles ++ new ∷ []) ≡ some r) roles new
      (All-map_of (λ r. find_role r.id (roles ++ new ∷ []) ≡ some r)
        (λ r f. find_role-append r.id roles new r f) roles h)
      (find_role-added roles new e)

pub added-InLockstep :
    (roles : List Role) (new : Role) (users : List User)
    → All (InLockstep roles) users
    → All (InLockstep (roles ++ new ∷ [])) users
added-InLockstep roles new users =
    All-map_of (InLockstep (roles ++ new ∷ []))
      (λ u (r, e, f).
        (r, find_role-append u.role_id roles new r e, find_role_name-append u.role roles new r f))
      users

-- What is granted stays so, under a write of the roles that keeps what every user's role grants.
pub kept-IsAdministrable :
    (roles roles' : List Role) (users : List User)
    → ((p : String) (u : User) → holds roles p u ≡ true → holds roles' p u ≡ true)
    → IsAdministrable users roles
    → IsAdministrable users roles'
kept-IsAdministrable roles roles' users k (f, g) = (
  any_of (holds roles "users:manage") (holds roles' "users:manage") (k "users:manage") users f,
  any_of (holds roles "settings:manage") (holds roles' "settings:manage") (k "settings:manage")
      users g,
)

pub added-holds :
    (roles : List Role) (new : Role) (p : String) (u : User)
    → holds roles p u ≡ true
    → holds (roles ++ new ∷ []) p u ≡ true
added-holds roles new p u h = elim (Option-cases (find_role u.role_id roles)) [
  | inl e ↦ ground (arith, h, e)
  | inr (r, e) ↦ ground (arith, h, e, find_role-append u.role_id roles new r e)
]

-- Two roles of different names have different ids.
other_row :
    (id role_id : String) (roles : List Role) (before r : Role)
    → find_role id roles ≡ some before
    → find_role role_id roles ≡ some r
    → str_eq r.name before.name ≡ false
    → str_eq r.id id ≡ false
other_row id role_id roles before r b e n = elim (Bool-cases (str_eq r.id id)) [
  | inl t ↦
      let found = find_role-id role_id roles r e in
      let same : role_id ≡ id = ground (arith, found, t, eq_iff r.id role_id, eq_iff r.id id) in
      let one : r ≡ before =
        some-injective r before (sym e ∙ ap (λ x. find_role x roles) same ∙ b) in
      let names = ap (λ x. str_eq x.name before.name) one in
      ground (arith, n, names, eq_refl before.name)
  | inr f ↦ f
]

module _ (id : String) (input : UpdateRole) where
  same_id : (r : Role) → (change_role id input r).id ≡ r.id
  same_id r = ground arith

  same_name : (r : Role) → (change_role id input r).name ≡ r.name
  same_name r = ground arith

  pub changed-RoleIds :
      (roles : List Role) → RoleIds roles → RoleIds (map (change_role id input) roles)
  changed-RoleIds roles =
      All-map (λ r. find_role r.id roles ≡ some r)
        (λ r. find_role r.id (map (change_role id input) roles) ≡ some r) (change_role id input)
        (λ r e.
          ap (λ x. find_role x (map (change_role id input) roles)) (same_id r)
          ∙ find_role-map (change_role id input) same_id same_name r.id roles r e)
        roles

  pub changed-InLockstep :
      (roles : List Role) (users : List User)
      → All (InLockstep roles) users
      → All (InLockstep (map (change_role id input) roles)) users
  changed-InLockstep roles users =
      All-map_of (InLockstep (map (change_role id input) roles))
        (λ u (r, e, f). (
          change_role id input r,
          find_role-map (change_role id input) same_id same_name u.role_id roles r e,
          find_role_name-map (change_role id input) same_id same_name u.role roles r f,
        ))
        users

  -- A permission that the new list has, or that the request leaves alone, stays with every holder.
  stays :
      (roles : List Role) (p : String) (u : User)
      → elim input.permissions [ none ↦ true | some next ↦ includes next p ] ≡ true
      → holds roles p u ≡ true
      → holds (map (change_role id input) roles) p u ≡ true
  stays roles p u k h = elim (Option-cases (find_role u.role_id roles)) [
    | inl e ↦ ground (arith, h, e)
    | inr (r, e) ↦
        let f = find_role-map (change_role id input) same_id same_name u.role_id roles r e in
        let g = holds_by (map (change_role id input) roles) p u (change_role id input r) f in
        ground (arith, h, e, g, k)
  ]

  -- One that roles of another name grant stays with their holders.
  stays_elsewhere :
      (roles : List Role) (before : Role) (p : String) (u : User)
      → find_role id roles ≡ some before
      → holds_elsewhere roles before.name p u ≡ true
      → holds (map (change_role id input) roles) p u ≡ true
  stays_elsewhere roles before p u b h = elim (Option-cases (find_role u.role_id roles)) [
    | inl e ↦ ground (arith, h, e)
    | inr (r, e) ↦
        let f = find_role-map (change_role id input) same_id same_name u.role_id roles r e in
        let g = holds_by (map (change_role id input) roles) p u (change_role id input r) f in
        let other : str_eq r.id id ≡ false =
          other_row id u.role_id roles before r b e (ground (arith, h, e)) in
        ground (arith, h, e, g, other)
  ]

  -- One that the guard has looked at stays held.
  guarded :
      (a : Accounts) (before : Role) (p : String)
      → find_role id a.roles ≡ some before
      → elim input.permissions [
        | none ↦ true
        | some next ↦ includes next p || not (count_elsewhere a before.name p == 0)
      ]
        ≡ true
      → any (holds a.roles p) a.users ≡ true
      → any (holds (map (change_role id input) a.roles) p) a.users ≡ true
  guarded a before p b k h =
      elim (Bool-cases (elim input.permissions [ none ↦ true | some next ↦ includes next p ])) [
        | inl e ↦
            any_of (holds a.roles p) (holds (map (change_role id input) a.roles) p)
              (λ u. stays a.roles p u e) a.users h
        | inr e ↦
            any_of (holds_elsewhere a.roles before.name p)
              (holds (map (change_role id input) a.roles) p)
              (λ u. stays_elsewhere a.roles before p u b) a.users
              (someone (holds_elsewhere a.roles before.name p) a.users (ground (arith, e, k)))
      ]

  pub changed-IsAdministrable :
      (a : Accounts) (before : Role)
      → find_role id a.roles ≡ some before
      → lost_by a before.name input.permissions ≡ none
      → IsAdministrable a.users a.roles
      → IsAdministrable a.users (map (change_role id input) a.roles)
  changed-IsAdministrable a before b k (f, g) = (
    guarded a before "users:manage" b (ground (arith, k)) f,
    guarded a before "settings:manage" b (ground (arith, k)) g,
  )
