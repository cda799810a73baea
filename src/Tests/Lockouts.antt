-- ===== src/Tests/Lockouts.antt =====
-- local-auth.provider.ts on one account, under a limit of two failures.
use nexuspuppet.Base.{true, none, some, [], ◌∷◌, ◌≡◌, refl, arith}
use nexuspuppet.Auth.Lockout.{User, LockoutPolicy}
use nexuspuppet.Auth.Lockout.Laws.{failed_at, failed_at-expired}

abbrev policy : LockoutPolicy
policy = record { max_failed_attempts = 2; lockout_minutes = 15 }

abbrev ann : User
ann = record {
  id = "1";
  email = "ann@example.com";
  display_name = "Ann";
  role = "ADMIN";
  auth_source = "local";
  is_active = true;
  password_hash = some "secret";
  failed_login_attempts = 0;
  locked_until = none;
  last_login_at = none;
}

abbrev held : User
held = record ann { locked_until = some 1000 }

failed_at-expired_example :
    let v = failed_at policy (1000 ∷ 1001 ∷ 1002 ∷ 1003 ∷ []) held in
    (v.locked_until ≡ some 1000) × (v.failed_login_attempts ≡ 1)
failed_at-expired_example =
    failed_at-expired policy 1000 1000 (1001 ∷ 1002 ∷ 1003 ∷ []) held refl (omega arith)
      (omega arith) (omega arith, (omega arith, (omega arith, tt)))
