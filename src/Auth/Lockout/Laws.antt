-- ===== src/Auth/Lockout/Laws.antt =====
-- When local-auth.provider.ts locks an account, and when it does not.
use nexuspuppet.Base.{
  ℕ, ◌+◌, ◌*◌, ◌≤◌, ◌<◌, String, Bool, Option, none, some, List, [], ◌∷◌, ◌++◌, ◌≡◌, refl, arith,
  length, All, Option-cases, inl, inr,
}
use nexuspuppet.Base.Dict.{Dict, get}
use nexuspuppet.Auth.Lockout.{
  User, LockoutPolicy, Credentials, invalid_credentials, is_locked, lock_expired,
  next_attempt_count, record_failure, authenticate, normalize_email,
}

-- A user after wrong passwords at these instants, the earliest first.
unfoldable pub failed_at : LockoutPolicy → List ℕ → User → User
unfolding record_failure
failed_at policy [] u = u
failed_at policy (t ∷ ts) u = failed_at policy ts (record_failure policy t u)

one_failure :
    (policy : LockoutPolicy) (t : ℕ) (u : User)
    → u.locked_until ≡ none
    → u.failed_login_attempts + 1 < policy.max_failed_attempts
    → ((record_failure policy t u).locked_until ≡ none)
      × ((record_failure policy t u).failed_login_attempts ≡ u.failed_login_attempts + 1)
unfolding record_failure is_locked next_attempt_count lock_expired
one_failure policy t u e h = ground (arith, e, h)

last_failure :
    (policy : LockoutPolicy) (t : ℕ) (u : User)
    → u.locked_until ≡ none
    → u.failed_login_attempts + 1 ≡ policy.max_failed_attempts
    → ((record_failure policy t u).locked_until ≡ some (t + policy.lockout_minutes * 60000))
      × ((record_failure policy t u).failed_login_attempts ≡ 0)
unfolding record_failure is_locked next_attempt_count lock_expired
last_failure policy t u e h = ground (arith, e, h)

-- On an account that has had no lock since its last success, the wrong password that brings the
-- failures to the limit locks it, from its own instant on, and starts the count again.
pub failed_at-locks :
    (policy : LockoutPolicy) (ts : List ℕ) (t : ℕ) (u : User)
    → u.locked_until ≡ none
    → u.failed_login_attempts + length ts + 1 ≡ policy.max_failed_attempts
    → let v = failed_at policy (ts ++ t ∷ []) u in
      (v.locked_until ≡ some (t + policy.lockout_minutes * 60000)) × (v.failed_login_attempts ≡ 0)
unfolding failed_at
failed_at-locks policy [] t u e h = last_failure policy t u e (omega (arith, h))
failed_at-locks policy (s ∷ ts) t u e h =
    let (n, a) = one_failure policy s u e (omega (arith, h)) in
    failed_at-locks policy ts t (record_failure policy s u) n (omega (arith, h, a))

expired_failure :
    (policy : LockoutPolicy) (until t : ℕ) (u : User)
    → u.locked_until ≡ some until
    → 1 < policy.max_failed_attempts
    → until ≤ t
    → ((record_failure policy t u).locked_until ≡ some until)
      × ((record_failure policy t u).failed_login_attempts ≡ 1)
unfolding record_failure is_locked next_attempt_count lock_expired
expired_failure policy until t u e h l = ground (arith, e, h, l)

-- Once a lock has run out, no number of wrong passwords locks the account again where the limit is
-- more than one: the expired lock stays in the row, and each failure counts as the first.
pub failed_at-expired :
    (policy : LockoutPolicy) (until t : ℕ) (ts : List ℕ) (u : User)
    → u.locked_until ≡ some until
    → 1 < policy.max_failed_attempts
    → until ≤ t
    → All (λ s. until ≤ s) ts
    → let v = failed_at policy (t ∷ ts) u in
      (v.locked_until ≡ some until) × (v.failed_login_attempts ≡ 1)
unfolding failed_at
failed_at-expired policy until t [] u e h l a = expired_failure policy until t u e h l
failed_at-expired policy until t (s ∷ ts) u e h l (b, a) =
    failed_at-expired policy until s ts (record_failure policy t u)
      (expired_failure policy until t u e h l).0 h b a

-- While an account is locked no password is accepted, and nothing is written.
pub authenticate-locked :
    (verify_password : String → String → Bool) (to_lower : String → String) (policy : LockoutPolicy)
    (stored : Bool) (now until : ℕ) (upgraded : Option String) (credentials : Credentials)
    (users : Dict User) (u : User)
    → get users (normalize_email verify_password to_lower policy credentials.email) ≡ some u
    → u.locked_until ≡ some until
    → now < until
    → authenticate verify_password to_lower policy stored now upgraded credentials users
      ≡ (invalid_credentials, users)
unfolding authenticate is_locked
authenticate-locked verify_password to_lower policy stored now until upgraded credentials users u f
      e l =
    elim (Option-cases u.password_hash) [
      | inl p ↦ rw (f, p) refl
      | inr (h, p) ↦ rw (f, p, e) (ground (arith, l))
    ]
