-- ===== src/Auth/Accounts/Removal.antt =====
-- When users.service.ts removes an account.
use mathlib.Core.Option.{some-injective}
use nexuspuppet.Base.{
  String, Bool, Bool, true, false, not, ◌||◌, some, List, [], ◌∷◌, ◌≡◌, ◌↔◌, refl, sym, ap, ◌∙◌,
  arith, str_eq, eq_iff, any, All, includes, keep, ◌⊎◌, Option-cases, Bool-cases, inl, inr,
}
use nexuspuppet.Base.Sort.{Pairs}
use nexuspuppet.Auth.Accounts.{
  Answer, denied, User, Role, Accounts, Actor, World, ok, find_user, find_role, delete_user,
  holds_other, audited,
}
use nexuspuppet.Auth.Accounts.Users.{remove, deletion_row}
use nexuspuppet.Auth.Accounts.Lookup.{count_none}

-- The user is active, is not the one with the id, and has a role with the permission.
abbrev pub Holder : List Role → String → String → User → Type 0
Holder roles id permission u =
    (u.is_active ≡ true)
    × (str_eq u.id id ≡ false)
    × ((r : Role) × (find_role u.role_id roles ≡ some r)
        × (includes r.permissions permission ≡ true))

abbrev pub OtherHolder : List Role → String → String → List User → Type 0
OtherHolder roles id permission [] = ⊥
OtherHolder roles id permission (u ∷ us) =
    Holder roles id permission u ⊎ OtherHolder roles id permission us

-- What the role of the user says of it.
one_iff :
    (roles : List Role) (id permission : String) (u : User)
    → (holds_other roles id permission u ≡ true) ↔ Holder roles id permission u
one_iff roles id permission u = elim (Option-cases (find_role u.role_id roles)) [
  | inl e ↦ (
    λ h. absurd (ground (arith, e, h)),
    λ (active, other, more). let (r, f, i) = more in absurd (ground (arith, e, f)),
  )
  | inr (r, e) ↦ (
    λ h. (ground (arith, e, h), ground (arith, e, h), (r, e, ground (arith, e, h))),
    λ (active, other, more).
        let (s, f, i) = more in
        ground (
          arith,
          active,
          other,
          e,
          f,
          ap (λ x. includes x.permissions permission) (some-injective r s (sym e ∙ f)),
          i,
        ),
  )
]

holder_iff :
    (roles : List Role) (id permission : String) (users : List User)
    → (any (holds_other roles id permission) users ≡ true) ↔ OtherHolder roles id permission users
holder_iff roles id permission [] = (λ h. absurd (ground (arith, h)), λ h. absurd h)
holder_iff roles id permission (u ∷ us) =
    either (one_iff roles id permission u) (holder_iff roles id permission us)
  where
    either :
        {P Q : Type 0} {b c : Bool} → (b ≡ true) ↔ P → (c ≡ true) ↔ Q → ((b || c) ≡ true) ↔ (P ⊎ Q)
    either {b = true} p q = (λ h. inl (p.0 refl), λ h. refl)
    either {b = false} p q =
        (λ h. inr (q.0 h), λ o. elim o [ inl x ↦ absurd (ground (arith, p.1 x)) | inr y ↦ q.1 y ])

-- No two users have one id.
abbrev pub UniqueIds : List User → Type 0
UniqueIds users = Pairs (λ u v. str_eq u.id v.id ≡ false) users

abbrev pub others : String → List User → List User
others id users = keep (λ u. not (str_eq u.id id)) users

others-apart :
    (id : String) (u : User) (us : List User)
    → str_eq u.id id ≡ true
    → All (λ v. str_eq u.id v.id ≡ false) us
    → us ≡ others id us
others-apart id u [] e h = refl
others-apart id u (v ∷ us) e (d, h) =
    let f : str_eq v.id id ≡ false =
      ground (arith, eq_iff u.id id, eq_iff v.id id, eq_iff u.id v.id, e, d) in
    ground (arith, f, others-apart id u us e h)

delete_user-others :
    (id : String) (us : List User) → UniqueIds us → delete_user id us ≡ others id us
delete_user-others id [] h = refl
delete_user-others id (u ∷ us) (d, h) = elim (Bool-cases (str_eq u.id id)) [
  | inl e ↦ ground (arith, e, others-apart id u us e d)
  | inr e ↦ ground (arith, e, delete_user-others id us h)
]

-- The users after a request to remove one, by its answer.
abbrev pub left_by : Answer Unit → String → List User → List User
left_by (ok done) id users = others id users
left_by (denied why) id users = users

remove-tests :
    (w : World) (actor : Actor) (id : String) (a : Accounts) (user : User)
    → find_user id a.users ≡ some user
    → ((remove w actor id a).0 ≡ ok tt) ↔ (
        (str_eq id actor.user_id ≡ false)
        × (any (holds_other a.roles id "users:manage") a.users ≡ true)
        × (any (holds_other a.roles id "settings:manage") a.users ≡ true)
        × (w.accepts (deletion_row actor id user) ≡ true))
unfolding remove audited
remove-tests w actor id a user e = ground (
  arith,
  e,
  count_none (holds_other a.roles id "users:manage") a.users,
  count_none (holds_other a.roles id "settings:manage") a.users,
)

remove-users :
    (w : World) (actor : Actor) (id : String) (a : Accounts) (user : User)
    → find_user id a.users ≡ some user
    → UniqueIds a.users
    → (remove w actor id a).1.users ≡ left_by (remove w actor id a).0 id a.users
unfolding remove audited
remove-users w actor id a user e h = ground (arith, e, delete_user-others id a.users h)

-- A request to remove an account that exists, among users of which no two have one id, is granted
-- exactly where the account is not that of the caller, other active users hold each of the two
-- administrative permissions by their roles, and the audit row is written. The user with the id is
-- then gone and all the others are left; a request that is refused leaves the users as they are.
pub remove_iff :
    (w : World) (actor : Actor) (id : String) (a : Accounts) (user : User)
    → find_user id a.users ≡ some user
    → UniqueIds a.users
    → (((remove w actor id a).0 ≡ ok tt) ↔ (
        (str_eq id actor.user_id ≡ false)
        × OtherHolder a.roles id "users:manage" a.users
        × OtherHolder a.roles id "settings:manage" a.users
        × (w.accepts (deletion_row actor id user) ≡ true)))
      × ((remove w actor id a).1.users ≡ left_by (remove w actor id a).0 id a.users)
remove_iff w actor id a user e h =
    let (p, q) = remove-tests w actor id a user e in
    let (m, m') = holder_iff a.roles id "users:manage" a.users in
    let (s, s') = holder_iff a.roles id "settings:manage" a.users in
    (
      (λ k. let (x, y, z, v) = p k in (x, m y, s z, v), λ (x, y, z, v). q (x, m' y, s' z, v)),
      remove-users w actor id a user e h,
    )
