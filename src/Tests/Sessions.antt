-- ===== src/Tests/Sessions.antt =====
-- token.service.ts on a small table, with the hash that is the text itself.
use nexuspuppet.Base.{
  ℕ, String, false, ◌&&◌, Option, none, some, [], ◌∷◌, ◌≡◌, refl, arith, str_eq, All,
}
use nexuspuppet.Auth.Tokens.{
  RefreshToken, TokenTable, SessionContext, SessionTokens, done, refused, reused, is_live,
  find_hash, issue, rotate, check_presented, settle_rotation, judge,
}
use nexuspuppet.Auth.Tokens.OneLive.{OneLive, created, stepped, begun, rotated, Reachable-OneLive}
use nexuspuppet.Auth.Tokens.Reuse.{rotate-reused, rotate-interleaved}

abbrev context : SessionContext
context = record { ip_address = none; user_agent = none }

abbrev hash : String → String
hash s = s

abbrev resolve : String → Option String
resolve user_id = some user_id

abbrev row : ℕ → String → String → String → RefreshToken
row id user_id token family = record {
  id = id;
  user_id = user_id;
  token_hash = token;
  family_id = family;
  expires_at = 5000;
  consumed_at = none;
  revoked_at = none;
  user_agent = none;
  ip_address = none;
}

abbrev table : TokenTable
table = record {
  rows = row 0 "ann" "t0" "f" ∷ row 1 "ann" "t1" "g" ∷ row 2 "bob" "t2" "h" ∷ [];
  next_id = 3;
}

abbrev empty : TokenTable
empty = record { rows = []; next_id = 0 }

abbrev signed_in : TokenTable
signed_in = (issue hash 1 9 0 "ann" "f" "t0" context empty).1

Reachable-OneLive_example : OneLive (rotate hash 1 9 5 resolve "t0" "t1" context signed_in).1
Reachable-OneLive_example = Reachable-OneLive hash 1 9 (
    stepped (stepped created (begun 0 "ann" "f" "t0" context empty tt))
      (rotated 5 resolve "t0" "t1" context signed_in))

abbrev after : TokenTable
after = (rotate hash 1 9 5 resolve "t0" "t9" context table).1

abbrev tokens : SessionTokens
tokens = record { refresh_token = "t9"; access_expires_at = 1005; refresh_expires_at = 9005 }

rotate-reused_example :
    ((rotate hash 1 9 6 resolve "t0" "t8" context after).0 ≡ refused reused)
    × All
        (λ a. (is_live a && str_eq a.family_id "f") ≡ false)
        (rotate hash 1 9 6 resolve "t0" "t8" context after).1.rows
unfolding rotate judge find_hash
rotate-reused_example =
    rotate-reused hash 1 9 5 6 resolve resolve "t0" "t9" "t8" context context table after tokens
      (row 0 "ann" "t0" "f") refl refl

rotate-interleaved_example :
    let checked = check_presented hash 1 9 5 resolve "t0" table in
    let again = check_presented hash 1 9 6 resolve "t0" table in
    let first = settle_rotation hash 1 9 5 "t9" context checked table in
    let second = settle_rotation hash 1 9 6 "t8" context again first.1 in
    ((a : SessionTokens) × (b : SessionTokens) × (first.0 ≡ done a) × (second.0 ≡ done b))
    × (¬ OneLive second.1)
unfolding check_presented judge find_hash
rotate-interleaved_example =
    rotate-interleaved hash 1 9 5 6 resolve "t0" "t9" "t8" "ann" context context table
      (row 0 "ann" "t0" "f") refl refl (omega arith)
