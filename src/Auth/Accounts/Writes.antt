-- ===== src/Auth/Accounts/Writes.antt =====
-- What the operations of users.service.ts write where they are not refused, for any property of the
-- users and the roles.
use nexuspuppet.Base.{
  String, true, not, ◌&&◌, ◌||◌, Option, none, some, List, [], ◌∷◌, ◌++◌, ◌≡◌, refl, str_eq,
  includes, Option-cases, Bool-cases, inl, inr,
}
use nexuspuppet.Auth.Accounts.{
  User, Role, Accounts, Actor, World, AuditRow, Answer, ok, denied, transacted, audited, find_user,
  find_email, write_user, delete_user, find_role_name,
}
use nexuspuppet.Auth.Accounts.Users.{
  CreateUser, UpdateUser, new_user, create, create_new, is_local, changes_role, deactivates, unheld,
  update_refusal, with_role, with_fields, write_updated, update_found, update, afterwards,
  end_sessions, remove, remove_found, remove_checked, and_then, delete_row,
}

-- What `update` writes once its guards have passed.
pub record Changed (input : UpdateUser) (id : String) (a : Accounts) (before u : User)
    : Type 0 where
  pub found : find_user id a.users ≡ some before
  pub held : unheld (changes_role input before || deactivates input) a id ≡ none
  pub named : with_role a.roles input.role before ≡ some u

no_refusal :
    (actor : Actor) (id : String) (input : UpdateUser) (before : User) (o : Option String)
    → update_refusal actor id input before o ≡ none
    → o ≡ none
no_refusal actor id input before none e = refl
no_refusal actor id input before (some p) e = cc

module _ (Q : List User → List Role → Type 0) where
  abbrev pub Holds : Accounts → Type 0
  Holds a = Q a.users a.roles

  abbrev pub Fine : Answer Accounts → Type 0
  Fine (ok a) = Holds a
  Fine (denied why) = Unit

  pub audited-Fine : (w : World) (row : AuditRow) (a : Accounts) → Holds a → Fine (audited w row a)
  unfolding audited
  audited-Fine w row a h = elim (Bool-cases (w.accepts row)) [ inl e ↦ rw e h | inr e ↦ rw e tt ]

  pub transacted-Holds :
      (a : Accounts) (answer : Answer Accounts)
      → Holds a
      → Fine answer
      → Holds (transacted a answer).1
  transacted-Holds a (ok after) h k = k
  transacted-Holds a (denied why) h k = h

  -- A transaction that starts from a lookup.
  pub transacted_found :
      (a : Accounts) (body : Option User → Answer Accounts) (found : Option User)
      → Holds a
      → Fine (body none)
      → ((u : User) → found ≡ some u → Fine (body (some u)))
      → Holds (transacted a (body found)).1
  transacted_found a body none h k l = transacted-Holds a (body none) h k
  transacted_found a body (some u) h k l = transacted-Holds a (body (some u)) h (l u refl)

  pub afterwards-Holds :
      (w : World) (id : String) (spared : Option String) (r : Answer Unit × Accounts)
      → Holds r.1
      → Holds (afterwards (end_sessions w id spared) r).1
  afterwards-Holds w id spared (ok done, a) h = h
  afterwards-Holds w id spared (denied why, a) h = h

  module _ (w : World) (actor : Actor) (id : String) (a : Accounts) (h : Holds a) where
    pub update-Holds :
        (input : UpdateUser)
        → ((before u : User)
            → Changed input id a before u
            → Q (write_user id (with_fields input u) a.users) a.roles)
        → Holds (update w actor id input a).1
    unfolding update
    update-Holds input k =
        transacted_found a (λ o. update_found w actor id input o a) (find_user id a.users) h tt
          guarded
      where
        written :
            (before : User)
            → find_user id a.users ≡ some before
            → unheld (changes_role input before || deactivates input) a id ≡ none
            → Fine (write_updated w actor id input before (with_role a.roles input.role before) a)
        written before e f = elim (Option-cases (with_role a.roles input.role before)) [
          | inl g ↦ rw g tt
          | inr (u, g) ↦
              rw g (audited-Fine w _ _ (k before u (record { found = e; held = f; named = g })))
        ]

        guarded :
            (before : User)
            → find_user id a.users ≡ some before
            → Fine (update_found w actor id input (some before) a)
        guarded before e =
            let o = unheld (changes_role input before || deactivates input) a id in
            elim (Option-cases (update_refusal actor id input before o)) [
              | inl f ↦ rw f (written before e (no_refusal actor id input before o f))
              | inr (why, f) ↦ rw f tt
            ]

    pub create-Holds :
        (input : CreateUser)
        → ((role : Role)
            → find_role_name input.role a.roles ≡ some role
            → Q (a.users ++ new_user w id input role ∷ []) a.roles)
        → Holds (create w actor id input a).1
    unfolding create
    create-Holds input k =
        elim (Bool-cases
          (not (is_local input.auth_source) && not (includes w.sources input.auth_source))) [
            | inl e ↦ rw e h
            | inr e ↦
                rw e
                  (transacted-Holds a _ h (absent (find_email (w.normalize input.email) a.users)))
          ]
      where
        absent : (o : Option User) → Fine (create_new w actor id input o a)
        absent (some u) = tt
        absent none = elim (Option-cases (find_role_name input.role a.roles)) [
          | inl e ↦ rw e tt
          | inr (role, e) ↦ rw e (audited-Fine w _ _ (k role e))
        ]

deleted-Fine :
    (Q : List User → List Role → Type 0) (id : String) (answer : Answer Accounts)
    → Fine (λ us rs. Q (delete_user id us) rs) answer
    → Fine Q (and_then (delete_row id) answer)
deleted-Fine Q id (ok a) h = h
deleted-Fine Q id (denied why) h = tt

module _ (Q : List User → List Role → Type 0) where
  pub remove-Holds :
      (w : World) (actor : Actor) (id : String) (a : Accounts)
      → Holds Q a
      → (unheld true a id ≡ none → Q (delete_user id a.users) a.roles)
      → Holds Q (remove w actor id a).1
  unfolding remove
  remove-Holds w actor id a h k =
      transacted_found Q a (λ o. remove_found w actor id o a) (find_user id a.users) h tt
        λ user e. elim (Bool-cases (str_eq id actor.user_id)) [
          | inl f ↦ rw f tt
          | inr f ↦ rw f (checked user)
        ]
    where
      checked : (user : User) → Fine Q (remove_checked w actor id user (unheld true a id) a)
      checked user = elim (Option-cases (unheld true a id)) [
        | inl g ↦
            rw g
              (deleted-Fine Q id _ (audited-Fine (λ us rs. Q (delete_user id us) rs) w _ _ (k g)))
        | inr (p, g) ↦ rw g tt
      ]
