-- ===== src/Auth/Policy/Laws.antt =====
-- What rbac.policy.ts and role-registry.ts guarantee.
use mathlib.Core.Path.{subst}
use nexuspuppet.Base.Membership.{includes-append, includes-perm}
use nexuspuppet.Base.{
  String, Bool, true, false, ◌||◌, Option, none, some, List, [], ◌∷◌, ◌++◌, ◌≡◌, ◌↔◌, ◌∙◌, refl,
  arith, eq_iff, if◌then◌else◌, any, includes, keep, if_iff, ◌⊎◌, Option-cases, Bool-cases, str_eq,
  inl, inr, eq_refl, ap,
}
use nexuspuppet.Base.Sort.{sort-perm}
use nexuspuppet.Base.Dict.{get, get-put}
use nexuspuppet.Value.Text.{text_before}
use nexuspuppet.Auth.Policy.{
  AuthenticatedPrincipal, AuthorizationTarget, RoleRow, Snapshot, known_permissions, load_row,
  refuse_empty, load_rows, refresh, held, grants, in_scope, within_scope, can, add_new,
  permissions_of, union_of, permissions_for,
}

includes-add_new :
    (union ps : List String) (p : String)
    → includes (add_new union ps) p ≡ (includes union p || includes ps p)
includes-add_new union [] p = ground arith
includes-add_new union (q ∷ ps) p = ground (
  arith,
  eq_iff q p,
  includes-add_new union ps p,
  includes-add_new (union ++ q ∷ []) ps p,
  includes-append union q p,
)

includes-union_of :
    (roles : Snapshot) (union names : List String) (p : String)
    → includes (union_of roles union names) p ≡ (includes union p || any (grants roles p) names)
includes-union_of roles union [] p = ground arith
includes-union_of roles union (name ∷ names) p = ground (
  arith,
  includes-union_of roles (add_new union (permissions_of (get roles name))) names p,
  includes-add_new union (permissions_of (get roles name)) p,
)

-- The permissions that the console is told of are those that the policy grants: a permission is
-- listed exactly when a request that names no target is allowed.
pub permissions_for-can :
    (roles : Snapshot) (principal : AuthenticatedPrincipal) (permission : String)
    → includes (permissions_for roles principal) permission ≡ can roles principal permission none
unfolding permissions_for can within_scope
permissions_for-can roles principal permission =
    includes-perm permission (sort-perm text_before (union_of roles [] (held principal)))
    ∙ includes-union_of roles [] (held principal) permission
    ∙ by_value (any (grants roles permission) (held principal))
  where
    by_value : (b : Bool) → b ≡ (if b then true else false)
    by_value b = ground arith

-- A scope admits what a request names: it is absent or empty, or nothing is named, or the name is
-- in it.
abbrev pub Admits : Option (List String) → Option String → Type 0
Admits none named = Unit
Admits (some scope) none = Unit
Admits (some scope) (some value) = (scope ≡ []) ⊎ (includes scope value ≡ true)

in_scope_iff :
    (scope : Option (List String)) (named : Option String)
    → (in_scope scope named ≡ true) ↔ Admits scope named
in_scope_iff none named = (λ h. tt, λ h. refl)
in_scope_iff (some scope) none = (λ h. tt, λ h. refl)
in_scope_iff (some []) (some value) = ground arith
in_scope_iff (some (x ∷ xs)) (some value) = ground arith

-- Both scopes of the principal admit the target, if there is one.
abbrev pub AdmitsTarget : AuthenticatedPrincipal → Option AuthorizationTarget → Type 0
AdmitsTarget principal none = Unit
AdmitsTarget principal (some target) =
    Admits principal.scoped_group_ids target.group_id
    × Admits principal.scoped_environments target.environment

if_and :
    {P Q : Type 0} {b c : Bool}
    → (b ≡ true) ↔ P
    → (c ≡ true) ↔ Q
    → ((if b then c else false) ≡ true) ↔ (P × Q)
if_and {b = b} {c = c} p q =
    (λ h. let (x, y) = (if_iff b c q).0 h in (p.0 x, y), λ h. (if_iff b c q).1 (p.1 h.0, h.1))

within_scope_iff :
    (principal : AuthenticatedPrincipal) (target : Option AuthorizationTarget)
    → (within_scope principal target ≡ true) ↔ AdmitsTarget principal target
unfolding within_scope
within_scope_iff principal none = (λ h. tt, λ h. refl)
within_scope_iff principal (some target) =
    if_and (in_scope_iff principal.scoped_group_ids target.group_id)
      (in_scope_iff principal.scoped_environments target.environment)

-- The principal holds a role: it is in its list of roles, or is its one role where it has no list.
abbrev pub HoldsRole : Option (List String) → String → String → Type 0
HoldsRole none role name = role ≡ name
HoldsRole (some names) role name = includes names name ≡ true

-- The snapshot has the role, with the permission among those that it grants.
abbrev pub Grants : Snapshot → String → String → Type 0
Grants roles permission name =
    (granted : List String) × (get roles name ≡ some granted) × (includes granted permission ≡ true)

grants_iff :
    (roles : Snapshot) (permission name : String)
    → (grants roles permission name ≡ true) ↔ Grants roles permission name
grants_iff roles permission name = elim (Option-cases (get roles name)) [
  | inl e ↦ (λ h. ground (arith, e, h), λ (granted, f, i). ground (arith, e, f))
  | inr (granted, e) ↦
      (λ h. (granted, e, ground (arith, e, h)), λ (other, f, i). ground (arith, e, f, i))
]

-- Some role of the list grants the permission.
abbrev SomeGrants : Snapshot → String → List String → Type 0
SomeGrants roles permission names =
    (name : String) × (includes names name ≡ true) × Grants roles permission name

any-grants :
    (roles : Snapshot) (permission : String) (names : List String)
    → (any (grants roles permission) names ≡ true) ↔ SomeGrants roles permission names
any-grants roles permission [] = (λ h. ground (arith, h), λ (name, h, g). ground (arith, h))
any-grants roles permission (n ∷ names) =
    let (p, q) = any-grants roles permission names in
    (found p (Bool-cases (grants roles permission n)), held_by q)
  where
    found :
        (any (grants roles permission) names ≡ true → SomeGrants roles permission names)
        → (grants roles permission n ≡ true) ⊎ (grants roles permission n ≡ false)
        → any (grants roles permission) (n ∷ names) ≡ true
        → SomeGrants roles permission (n ∷ names)
    found p (inl e) h = (n, ground (arith, eq_refl n), (grants_iff roles permission n).0 e)
    found p (inr e) h = let (name, i, g) = p (ground (arith, e, h)) in (name, ground (arith, i), g)

    held_by :
        (SomeGrants roles permission names → any (grants roles permission) names ≡ true)
        → SomeGrants roles permission (n ∷ names)
        → any (grants roles permission) (n ∷ names) ≡ true
    held_by q (name, i, g) = elim (Bool-cases (str_eq n name)) [
      | inl e ↦
          let f = ap (grants roles permission) ((eq_iff n name).0 e) in
          ground (arith, f, (grants_iff roles permission name).1 g)
      | inr e ↦ ground (arith, q (name, ground (arith, e, i), g))
    ]

any-held :
    (roles : Snapshot) (role permission : String) (list : Option (List String))
    → (any (grants roles permission) (elim list [ none ↦ role ∷ [] | some names ↦ names ]) ≡ true)
      ↔ ((name : String) × HoldsRole list role name × Grants roles permission name)
any-held roles role permission none = (
  λ h. (role, refl, (grants_iff roles permission role).0 (ground (arith, h))),
  λ (name, e, g).
      ground (arith, ap (grants roles permission) e, (grants_iff roles permission name).1 g),
)
any-held roles role permission (some names) = any-grants roles permission names

-- A request is allowed exactly when the principal holds some role which the current snapshot has
-- with the permission, and both of the principal's scopes admit the target.
pub can_iff :
    (roles : Snapshot) (principal : AuthenticatedPrincipal) (permission : String)
    (target : Option AuthorizationTarget)
    → (can roles principal permission target ≡ true) ↔ (
        ((name : String) × HoldsRole principal.roles principal.role name
          × Grants roles permission name)
        × AdmitsTarget principal target)
unfolding can held
can_iff roles principal permission target =
    if_and (any-held roles principal.role permission principal.roles)
      (within_scope_iff principal target)

includes-kept :
    (known xs : List String) (p : String)
    → includes known p ≡ false
    → includes (keep (includes known) xs) p ≡ false
includes-kept known [] p u = refl
includes-kept known (x ∷ xs) p u = ground (arith, eq_iff x p, includes-kept known xs p u)

-- No role of the snapshot grants the permission.
abbrev Grantless : Snapshot → String → Type 0
Grantless roles p = (name : String) → grants roles p name ≡ false

load_rows-Grantless :
    (p : String)
    → includes known_permissions p ≡ false
    → (rows : List RoleRow) (next : Snapshot) → Grantless next p
    → Grantless (load_rows next rows) p
load_rows-Grantless p u [] next h = h
load_rows-Grantless p u (row ∷ rows) next h =
    load_rows-Grantless p u rows (load_row next row) λ name. ground (
      arith,
      get-put next row.name (keep (includes known_permissions) row.permissions) name,
      includes-kept known_permissions row.permissions p u,
      h name,
    )

refresh-Grantless :
    (p : String) (previous : Snapshot) (rows : Option (List RoleRow))
    → includes known_permissions p ≡ false
    → Grantless previous p
    → Grantless (refresh previous rows) p
unfolding refresh
refresh-Grantless p previous none u h = h
refresh-Grantless p previous (some rows) u h = kept (load_rows [] rows) refl
  where
    kept :
        (next : Snapshot)
        → load_rows [] rows ≡ next
        → Grantless (elim (refuse_empty next) [ none ↦ previous | some n ↦ n ]) p
    kept [] e = h
    kept (entry ∷ entries) e =
        subst (λ (n : Snapshot). Grantless n p) e
          (load_rows-Grantless p u rows [] (λ name. unfold get in refl))

any-none :
    (roles : Snapshot) (p : String) (names : List String)
    → Grantless roles p
    → any (grants roles p) names ≡ false
any-none roles p [] h = refl
any-none roles p (name ∷ names) h = ground (arith, h name, any-none roles p names h)

-- A snapshot after any refreshes, from the empty one that grants nothing: `none` is a failed query.
abbrev pub refreshes : Snapshot → List (Option (List RoleRow)) → Snapshot
refreshes roles [] = roles
refreshes roles (rows ∷ rest) = refreshes (refresh roles rows) rest

refreshes-Grantless :
    (p : String) (history : List (Option (List RoleRow))) (roles : Snapshot)
    → includes known_permissions p ≡ false
    → Grantless roles p
    → Grantless (refreshes roles history) p
refreshes-Grantless p [] roles u h = h
refreshes-Grantless p (rows ∷ rest) roles u h =
    refreshes-Grantless p rest (refresh roles rows) u (refresh-Grantless p roles rows u h)

-- Whatever the roles table held at any refresh, a permission that this build does not know is
-- never granted, to anybody and for any target.
pub unknown_permission :
    (history : List (Option (List RoleRow))) (principal : AuthenticatedPrincipal)
    (permission : String) (target : Option AuthorizationTarget)
    → includes known_permissions permission ≡ false
    → can (refreshes [] history) principal permission target ≡ false
unfolding can
unknown_permission history principal permission target u = rw (
    any-none (refreshes [] history) permission (held principal)
      (refreshes-Grantless permission history [] u (λ name. unfold get in refl)))
