-- ===== src/Auth/Tokens.antt =====
-- apps/api/src/auth/token.service.ts: refresh tokens that rotate within a family.
pub mod OneLive
pub mod Reuse
pub mod Revoked
use nexuspuppet.Base.{
  ℕ, ◌+◌, ◌*◌, String, Bool, true, false, not, ◌&&◌, Option, none, some, List, [], ◌∷◌, ◌++◌, map,
  str_eq, ltb, leb, ◌==◌, if◌then◌else◌, keep, length, ◌-◌,
}

-- The reasons of `RefreshTokenError`.
pub data Refusal : Type 0 where
  unknown expired revoked reused principal_gone : Refusal

-- A row of `RefreshToken`.
pub record RefreshToken : Type 0 where
  pub id : ℕ
  pub user_id : String
  pub token_hash : String
  pub family_id : String
  pub expires_at : ℕ
  pub consumed_at : Option ℕ
  pub revoked_at : Option ℕ
  pub user_agent : Option String
  pub ip_address : Option String

-- The rows, the earliest created first, and the id of the next one.
pub record TokenTable : Type 0 where
  pub rows : List RefreshToken
  pub next_id : ℕ

pub record SessionContext : Type 0 where
  pub ip_address : Option String
  pub user_agent : Option String

-- The pair without the access token, which jwt.ts signs.
pub record SessionTokens : Type 0 where
  pub refresh_token : String
  pub access_expires_at : ℕ
  pub refresh_expires_at : ℕ

-- A result, or what was thrown.
pub data Result (A : Type 0) : Type 0 where
  done : A → Result A
  refused : Refusal → Result A

abbrev pub is_unset : Option ℕ → Bool
is_unset none = true
is_unset (some t) = false

-- A row that can still be rotated, as far as the table says.
abbrev pub is_live : RefreshToken → Bool
is_live r = is_unset r.revoked_at && is_unset r.consumed_at

-- `updateMany` of rows that are not revoked.
abbrev pub revoke_if : ℕ → (RefreshToken → Bool) → RefreshToken → RefreshToken
revoke_if now p r = if p r && is_unset r.revoked_at then record r { revoked_at = some now } else r

unfoldable pub revoke_where : ℕ → (RefreshToken → Bool) → List RefreshToken → List RefreshToken
revoke_where now p rows = map (revoke_if now p) rows

-- `findUnique` by the hash.
unfoldable pub find_hash : String → List RefreshToken → Option RefreshToken
find_hash h [] = none
find_hash h (r ∷ rs) = if str_eq r.token_hash h then some r else find_hash h rs

-- `update` by the id.
abbrev pub consume_if : ℕ → ℕ → RefreshToken → RefreshToken
consume_if now id r = if r.id == id then record r { consumed_at = some now } else r

unfoldable pub consume : ℕ → ℕ → List RefreshToken → List RefreshToken
consume now id rows = map (consume_if now id) rows

unfoldable pub revoke_family : ℕ → String → TokenTable → TokenTable
unfolding revoke_where
revoke_family now family t = record t {
  rows = revoke_where now (λ r. str_eq r.family_id family) t.rows;
}

-- What `rotate` finds before it writes: a refusal, one that also ends a family, or the row to spend
-- and the user of the principal.
pub data Verdict : Type 0 where
  refuse : Refusal → Verdict
  end_family : String → Refusal → Verdict
  spend : RefreshToken → String → Verdict

abbrev judge_principal : RefreshToken → Option String → Verdict
judge_principal r none = end_family r.family_id principal_gone
judge_principal r (some user_id) = spend r user_id

-- The checks of `rotate` in their order; `resolve` is the auth provider's answer for a user.
unfoldable pub judge : ℕ → (String → Option String) → Option RefreshToken → Verdict
judge now resolve none = refuse unknown
judge now resolve (some r) =
    if not (is_unset r.revoked_at)
    then refuse revoked
    else if not (is_unset r.consumed_at)
    then end_family r.family_id reused
    else if leb r.expires_at now
    then refuse expired
    else judge_principal r (resolve r.user_id)

-- The family that a spared token belongs to, if it is the user's.
abbrev pub family_if_own : String → Option RefreshToken → Option String
family_if_own user_id none = none
family_if_own user_id (some r) = if str_eq r.user_id user_id then some r.family_id else none

abbrev pub is_other_family : Option String → RefreshToken → Bool
is_other_family none r = true
is_other_family (some family) r = not (str_eq r.family_id family)

-- SHA-256 and the two lifetimes in seconds.
module _ (hash_token : String → String) (access_ttl refresh_ttl : ℕ) where
  abbrev pub new_row : ℕ → String → String → String → SessionContext → ℕ → RefreshToken
  new_row now user_id family token context id = record {
    id = id;
    user_id = user_id;
    token_hash = hash_token token;
    family_id = family;
    expires_at = now + refresh_ttl * 1000;
    consumed_at = none;
    revoked_at = none;
    user_agent = context.user_agent;
    ip_address = context.ip_address;
  }

  -- `mint`, given the random token.
  unfoldable pub mint :
      ℕ → String → String → String → SessionContext → TokenTable → SessionTokens × TokenTable
  mint now user_id family token context t = (
    record {
      refresh_token = token;
      access_expires_at = now + access_ttl * 1000;
      refresh_expires_at = now + refresh_ttl * 1000;
    },
    record {
      rows = t.rows ++ new_row now user_id family token context t.next_id ∷ [];
      next_id = t.next_id + 1;
    },
  )

  -- `issue`, given the random family.
  unfoldable pub issue :
      ℕ → String → String → String → SessionContext → TokenTable → SessionTokens × TokenTable
  unfolding mint
  issue now user_id family token context t = mint now user_id family token context t

  -- The reading half of `rotate`.
  unfoldable pub check_presented : ℕ → (String → Option String) → String → TokenTable → Verdict
  unfolding judge find_hash
  check_presented now resolve presented t =
      judge now resolve (find_hash (hash_token presented) t.rows)

  abbrev spent : SessionTokens × TokenTable → Result SessionTokens × TokenTable
  spent (tokens, t) = (done tokens, t)

  -- Its writing half, by a token drawn at random.
  unfoldable pub settle_rotation :
      ℕ → String → SessionContext → Verdict → TokenTable → Result SessionTokens × TokenTable
  unfolding revoke_family consume mint
  settle_rotation now token context (refuse why) t = (refused why, t)
  settle_rotation now token context (end_family family why) t =
      (refused why, revoke_family now family t)
  settle_rotation now token context (spend r user_id) t =
      spent
        (mint now user_id r.family_id token context (record t { rows = consume now r.id t.rows }))

  -- `resolve` gives the user of the principal, or none.
  unfoldable pub rotate :
      ℕ
      → (String → Option String)
      → String
      → String
      → SessionContext
      → TokenTable
      → Result SessionTokens × TokenTable
  unfolding check_presented settle_rotation
  rotate now resolve presented token context t =
      settle_rotation now token context (check_presented now resolve presented t) t

  unfoldable pub revoke : ℕ → String → TokenTable → TokenTable
  unfolding revoke_where
  revoke now presented t = record t {
    rows = revoke_where now (λ r. str_eq r.token_hash (hash_token presented)) t.rows;
  }

  abbrev pub spared_family : String → Option String → List RefreshToken → Option String
  spared_family user_id none rows = none
  spared_family user_id (some token) rows =
      if str_eq token "" then none else family_if_own user_id (find_hash (hash_token token) rows)

  unfoldable pub revoke_all_for_user : ℕ → String → Option String → TokenTable → TokenTable
  unfolding revoke_where find_hash
  revoke_all_for_user now user_id except t =
      let spared = spared_family user_id except t.rows in
      record t {
        rows = revoke_where now (λ r. str_eq r.user_id user_id && is_other_family spared r) t.rows;
      }

-- `pruneExpired`, with the number of rows that go.
unfoldable pub prune_expired : ℕ → TokenTable → ℕ × TokenTable
prune_expired older_than t =
    let kept = keep (λ r. not (ltb r.expires_at older_than)) t.rows in
    (length t.rows - length kept, record t { rows = kept })
