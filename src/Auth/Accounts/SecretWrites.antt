-- ===== src/Auth/Accounts/SecretWrites.antt =====
-- What the operations of users.service.ts on passwords and sources write.
use nexuspuppet.Base.{
  String, true, Option, none, some, List, ◌≡◌, Option-cases, Bool-cases, inl, inr,
}
use nexuspuppet.Base.Dict.{Dict}
use nexuspuppet.Auth.Accounts.{
  User, Role, Accounts, Actor, World, Answer, transacted, find_user, write_user, Datum,
}
use nexuspuppet.Auth.Accounts.Users.{MoveAuthSource, is_local}
use nexuspuppet.Auth.Accounts.Secrets.{
  change_own_password, change_found, reset_password, reset_found, move_auth_source, move_found,
  move_refusal, moved, write_audited,
}
use nexuspuppet.Auth.Accounts.Writes.{Holds, Fine, audited-Fine, transacted_found, afterwards-Holds}

module _ (Q : List User → List Role → Type 0) where
  module _ (w : World) (actor : Actor) (id : String) (a : Accounts) (h : Holds Q a) where
    written_as :
        (action : String) (new : User) (before after : Option (Dict Datum))
        → Q (write_user id new a.users) a.roles
        → Fine Q (write_audited w actor action id new before after a)
    written_as action new before after q = audited-Fine Q w _ _ q

    pub reset_password-Holds :
        (next : String)
        → ((user : User)
            → find_user id a.users ≡ some user
            → is_local user.auth_source ≡ true
            → Q
                (write_user id
                  (record user { password_hash = some (w.hash_password next) })
                  a.users)
                a.roles)
        → Holds Q (reset_password w actor id next a).1
    unfolding reset_password
    reset_password-Holds next k =
        afterwards-Holds Q w id none
          (transacted a (reset_found w actor id next (find_user id a.users) a))
          (transacted_found Q a (λ o. reset_found w actor id next o a) (find_user id a.users) h tt
            λ user e. elim (Bool-cases (is_local user.auth_source)) [
              | inl f ↦ rw f (written_as _ _ none _ (k user e f))
              | inr f ↦ rw f tt
            ])

    pub move_auth_source-Holds :
        (input : MoveAuthSource)
        → ((before : User)
            → find_user id a.users ≡ some before
            → Q
                (write_user id
                  (moved w (w.normalize input.auth_source) input.password before)
                  a.users)
                a.roles)
        → Holds Q (move_auth_source w actor id input a).1
    unfolding move_auth_source
    move_auth_source-Holds input k =
        let target = w.normalize input.auth_source in
        let body : Option User → Answer Accounts =
          λ o. move_found w actor id target input.password o a in
        afterwards-Holds Q w id none (transacted a (body (find_user id a.users)))
          (transacted_found Q a body (find_user id a.users) h tt guarded)
      where
        guarded :
            (before : User)
            → find_user id a.users ≡ some before
            → Fine Q (
                move_found w actor id
                  (w.normalize input.auth_source)
                  input.password
                  (some before)
                  a)
        guarded before e =
            elim (Option-cases
              (move_refusal w actor id (w.normalize input.auth_source) input.password before)) [
                | inl f ↦ rw f (written_as _ _ _ _ (k before e))
                | inr (why, f) ↦ rw f tt
              ]

  pub change_own_password-Holds :
      (w : World) (actor : Actor) (current next : String) (spared : Option String) (a : Accounts)
      → Holds Q a
      → ((user : User) (stored : String)
          → find_user actor.user_id a.users ≡ some user
          → user.password_hash ≡ some stored
          → Q
              (write_user actor.user_id
                (record user { password_hash = some (w.hash_password next) })
                a.users)
              a.roles)
      → Holds Q (change_own_password w actor current next spared a).1
  unfolding change_own_password
  change_own_password-Holds w actor current next spared a h k =
      let body : Option User → Answer Accounts = λ o. change_found w actor current next o a in
      afterwards-Holds Q w actor.user_id spared
        (transacted a (body (find_user actor.user_id a.users)))
        (transacted_found Q a body (find_user actor.user_id a.users) h tt verified)
    where
      verified :
          (user : User)
          → find_user actor.user_id a.users ≡ some user
          → Fine Q (change_found w actor current next (some user) a)
      verified user e = elim (Option-cases user.password_hash) [
        | inl f ↦ rw f tt
        | inr (stored, f) ↦ rw f (elim (Bool-cases (w.verify_password current stored)) [
          | inl g ↦ rw g (audited-Fine Q w _ _ (k user stored e f))
          | inr g ↦ rw g tt
        ])
      ]
