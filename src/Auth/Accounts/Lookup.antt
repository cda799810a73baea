-- ===== src/Auth/Accounts/Lookup.antt =====
-- How the lookups of users and roles answer after a row is written, deleted or added.
use mathlib.Core.Path.{subst}
use mathlib.Core.Option.{some-injective}
use nexuspuppet.Base.{
  String, Bool, true, false, not, ◌&&◌, none, some, List, [], ◌∷◌, ◌++◌, map, ◌≡◌, refl, sym, ◌∙◌,
  ap, arith, str_eq, eq_refl, ◌==◌, keep, length, any, All, Bool-cases, inl, inr,
}
use nexuspuppet.Auth.Accounts.{
  User, Role, find_user, write_user, delete_user, find_role, find_role_name,
}

-- A count is nought where no row passes.
pub count_none {ℓ} :
    {A : Type ℓ} (p : A → Bool) (l : List A) → (length (keep p l) == 0) ≡ not (any p l)
count_none p [] = refl
count_none p (x ∷ xs) = ground (arith, count_none p xs)

-- Some user but one is some user.
any_other :
    (id : String) (p : User → Bool) (us : List User)
    → any (λ u. not (str_eq u.id id) && p u) us ≡ true
    → any p us ≡ true
any_other id p [] h = ground (arith, h)
any_other id p (u ∷ us) h = ground (arith, h, any_other id p us)

-- A user other than the one that is written, or deleted, is still there.
pub any-write_other :
    (id : String) (new : User) (p : User → Bool) (us : List User)
    → any (λ u. not (str_eq u.id id) && p u) us ≡ true
    → any p (write_user id new us) ≡ true
any-write_other id new p [] h = ground (arith, h)
any-write_other id new p (u ∷ us) h =
    ground (arith, h, any-write_other id new p us, any_other id p us)

pub any-delete_other :
    (id : String) (p : User → Bool) (us : List User)
    → any (λ u. not (str_eq u.id id) && p u) us ≡ true
    → any p (delete_user id us) ≡ true
any-delete_other id p [] h = ground (arith, h)
any-delete_other id p (u ∷ us) h = ground (arith, h, any-delete_other id p us, any_other id p us)

-- So is one that passes, where what is written passes if the row before it did.
pub any-write :
    (id : String) (before new : User) (p : User → Bool) (us : List User)
    → find_user id us ≡ some before
    → (p before ≡ true → p new ≡ true)
    → any p us ≡ true
    → any p (write_user id new us) ≡ true
any-write id before new p [] f k h = ground (arith, h)
any-write id before new p (u ∷ us) f k h = elim (Bool-cases (str_eq u.id id)) [
  | inl e ↦
      let s : u ≡ before = some-injective u before (ground (arith, e, f)) in
      let q : p u ≡ p before = ap p s in ground (arith, e, h, k, q)
  | inr e ↦ ground (arith, e, f, h, any-write id before new p us)
]

pub any-append {ℓ} :
    {A : Type ℓ} (p : A → Bool) (xs ys : List A) → any p xs ≡ true → any p (xs ++ ys) ≡ true
any-append p [] ys h = ground (arith, h)
any-append p (x ∷ xs) ys h = ground (arith, h, any-append p xs ys)

module _ {κ} (P : User → Type κ) where
  pub All-write :
      (id : String) (new : User) (us : List User) → P new → All P us → All P (write_user id new us)
  All-write id new [] q h = tt
  All-write id new (u ∷ us) q (p, h) = elim (Bool-cases (str_eq u.id id)) [
    | inl e ↦ rw e (q, h)
    | inr e ↦ rw e (p, All-write id new us q h)
  ]

  pub All-delete : (id : String) (us : List User) → All P us → All P (delete_user id us)
  All-delete id [] h = tt
  All-delete id (u ∷ us) (p, h) = elim (Bool-cases (str_eq u.id id)) [
    | inl e ↦ rw e h
    | inr e ↦ rw e (p, All-delete id us h)
  ]

  pub All-find :
      (id : String) (us : List User) (u : User) → find_user id us ≡ some u → All P us → P u
  All-find id [] u f h = cc
  All-find id (v ∷ us) u f (p, h) = elim (Bool-cases (str_eq v.id id)) [
    | inl e ↦ subst P (some-injective v u (ground (arith, e, f))) p
    | inr e ↦ All-find id us u (ground (arith, e, f)) h
  ]

module _ {ℓ κ} {A : Type ℓ} (P : A → Type κ) where
  pub All-keep : (p : A → Bool) (l : List A) → All P l → All P (keep p l)
  All-keep p [] h = tt
  All-keep p (x ∷ xs) (q, h) = elim (Bool-cases (p x)) [
    | inl e ↦ rw e (q, All-keep p xs h)
    | inr e ↦ rw e (All-keep p xs h)
  ]

  pub All-snoc : (l : List A) (x : A) → All P l → P x → All P (l ++ x ∷ [])
  All-snoc [] x h q = (q, tt)
  All-snoc (y ∷ ys) x (p, h) q = (p, All-snoc ys x h q)

-- The row of a role that is found by its name.
pub All-find_role_name {κ} :
    (P : Role → Type κ) (name : String) (rs : List Role) (r : Role)
    → find_role_name name rs ≡ some r
    → All P rs
    → P r
All-find_role_name P name [] r f h = cc
All-find_role_name P name (x ∷ rs) r f (p, h) = elim (Bool-cases (str_eq x.name name)) [
  | inl e ↦ subst P (some-injective x r (ground (arith, e, f))) p
  | inr e ↦ All-find_role_name P name rs r (ground (arith, e, f)) h
]

pub find_role-id :
    (id : String) (rs : List Role) (r : Role) → find_role id rs ≡ some r → str_eq r.id id ≡ true
find_role-id id [] r f = cc
find_role-id id (x ∷ rs) r f = elim (Bool-cases (str_eq x.id id)) [
  | inl e ↦
      let s : x ≡ r = some-injective x r (ground (arith, e, f)) in
      ap (λ y. str_eq y.id id) (sym s) ∙ e
  | inr e ↦ find_role-id id rs r (ground (arith, e, f))
]

-- A role that is added hides none.
pub find_role-append :
    (id : String) (rs : List Role) (new r : Role)
    → find_role id rs ≡ some r
    → find_role id (rs ++ new ∷ []) ≡ some r
find_role-append id [] new r f = cc
find_role-append id (x ∷ rs) new r f = ground (arith, f, find_role-append id rs new r)

pub find_role_name-append :
    (name : String) (rs : List Role) (new r : Role)
    → find_role_name name rs ≡ some r
    → find_role_name name (rs ++ new ∷ []) ≡ some r
find_role_name-append name [] new r f = cc
find_role_name-append name (x ∷ rs) new r f = ground (arith, f, find_role_name-append name rs new r)

pub find_role-added :
    (rs : List Role) (new : Role)
    → find_role new.id rs ≡ none
    → find_role new.id (rs ++ new ∷ []) ≡ some new
find_role-added [] new f = ground (arith, eq_refl new.id)
find_role-added (x ∷ rs) new f = ground (arith, f, find_role-added rs new)

-- A rewriting that keeps the ids and the names keeps what is found.
module _ (f : Role → Role) (same_id : (r : Role) → (f r).id ≡ r.id)
    (same_name : (r : Role) → (f r).name ≡ r.name) where
  pub find_role-map :
      (id : String) (rs : List Role) (r : Role)
      → find_role id rs ≡ some r
      → find_role id (map f rs) ≡ some (f r)
  find_role-map id [] r e = cc
  find_role-map id (x ∷ rs) r e = elim (Bool-cases (str_eq x.id id)) [
    | inl t ↦
        let s : x ≡ r = some-injective x r (ground (arith, t, e)) in
        let u : str_eq (f x).id id ≡ true = ap (λ y. str_eq y id) (same_id x) ∙ t in
        rw u (ap (λ y. some (f y)) s)
    | inr t ↦
        let u : str_eq (f x).id id ≡ false = ap (λ y. str_eq y id) (same_id x) ∙ t in
        rw u (find_role-map id rs r (ground (arith, t, e)))
  ]

  pub find_role_name-map :
      (name : String) (rs : List Role) (r : Role)
      → find_role_name name rs ≡ some r
      → find_role_name name (map f rs) ≡ some (f r)
  find_role_name-map name [] r e = cc
  find_role_name-map name (x ∷ rs) r e = elim (Bool-cases (str_eq x.name name)) [
    | inl t ↦
        let s : x ≡ r = some-injective x r (ground (arith, t, e)) in
        let u : str_eq (f x).name name ≡ true = ap (λ y. str_eq y name) (same_name x) ∙ t in
        rw u (ap (λ y. some (f y)) s)
    | inr t ↦
        let u : str_eq (f x).name name ≡ false = ap (λ y. str_eq y name) (same_name x) ∙ t in
        rw u (find_role_name-map name rs r (ground (arith, t, e)))
  ]

-- A role that stays is found when another is deleted.
pub find_role-keep :
    (gone id : String) (rs : List Role) (r : Role)
    → find_role id rs ≡ some r
    → str_eq r.id gone ≡ false
    → find_role id (keep (λ x. not (str_eq x.id gone)) rs) ≡ some r
find_role-keep gone id [] r f h = cc
find_role-keep gone id (x ∷ rs) r f h = elim (Bool-cases (str_eq x.id id)) [
  | inl e ↦
      let s : x ≡ r = some-injective x r (ground (arith, e, f)) in
      let g : str_eq x.id gone ≡ false = ap (λ y. str_eq y.id gone) s ∙ h in ground (arith, e, g, f)
  | inr e ↦ ground (arith, e, f, find_role-keep gone id rs r)
]

pub find_role_name-keep :
    (gone name : String) (rs : List Role) (r : Role)
    → find_role_name name rs ≡ some r
    → str_eq r.id gone ≡ false
    → find_role_name name (keep (λ x. not (str_eq x.id gone)) rs) ≡ some r
find_role_name-keep gone name [] r f h = cc
find_role_name-keep gone name (x ∷ rs) r f h = elim (Bool-cases (str_eq x.name name)) [
  | inl e ↦
      let s : x ≡ r = some-injective x r (ground (arith, e, f)) in
      let g : str_eq x.id gone ≡ false = ap (λ y. str_eq y.id gone) s ∙ h in ground (arith, e, g, f)
  | inr e ↦ ground (arith, e, f, find_role_name-keep gone name rs r)
]
