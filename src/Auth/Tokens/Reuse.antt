-- ===== src/Auth/Tokens/Reuse.antt =====
-- What token.service.ts does with a refresh token that is presented twice.
use mathlib.Core.Path.{subst}
use mathlib.Core.Option.{some-injective}
use nexuspuppet.Base.{
  ℕ, ◌+◌, ◌<◌, String, true, false, ◌&&◌, Option, some, List, [], ◌∷◌, ◌++◌, map, ◌≡◌, refl, sym,
  ◌∙◌, ap, arith, str_eq, eq_iff, All, Bool-cases, inl, inr,
}
use nexuspuppet.Base.Sort.{Pairs}
use nexuspuppet.Auth.Tokens.{
  RefreshToken, TokenTable, SessionContext, SessionTokens, Result, done, refused, Verdict, refuse,
  end_family, spend, is_live, revoke_if, revoke_where, find_hash, consume_if, consume,
  revoke_family, new_row, mint, judge, check_presented, settle_rotation, rotate, reused,
}
use nexuspuppet.Auth.Tokens.OneLive.{OneLive, clash, judge-live}

find_hash-consumed :
    (h : String) (now id : ℕ) (rows more : List RefreshToken) (r : RefreshToken)
    → find_hash h rows ≡ some r
    → find_hash h (map (consume_if now id) rows ++ more) ≡ some (consume_if now id r)
unfolding find_hash
find_hash-consumed h now id [] more r e = cc
find_hash-consumed h now id (x ∷ xs) more r e = elim (Bool-cases (str_eq x.token_hash h)) [
  | inl q ↦ ground (arith, q, e)
  | inr q ↦ ground (arith, q, e, find_hash-consumed h now id xs more r)
]

-- A row that was spent ends its family when it is presented again.
judge-spent :
    (now later : ℕ) (resolve : String → Option String) (r : RefreshToken)
    → is_live r ≡ true
    → judge later resolve (some (consume_if now r.id r)) ≡ end_family r.family_id reused
unfolding judge
judge-spent now later resolve r l = ground (arith, l)

family_revoked :
    (now : ℕ) (family : String) (rows : List RefreshToken)
    → All
        (λ a. (is_live a && str_eq a.family_id family) ≡ false)
        (map (revoke_if now (λ r. str_eq r.family_id family)) rows)
family_revoked now family [] = tt
family_revoked now family (r ∷ rs) = (ground arith, family_revoked now family rs)

module _ (hash_token : String → String) (access_ttl refresh_ttl : ℕ) where
  abbrev rotation :
      ℕ
      → (String → Option String)
      → String
      → String
      → SessionContext
      → TokenTable
      → Result SessionTokens × TokenTable
  rotation = rotate hash_token access_ttl refresh_ttl

  abbrev settled :
      ℕ → String → SessionContext → Verdict → TokenTable → Result SessionTokens × TokenTable
  settled = settle_rotation hash_token access_ttl refresh_ttl

  -- What a rotation that succeeds found.
  settled-done :
      (now : ℕ) (resolve : String → Option String) (presented token : String)
      (context : SessionContext) (v : Verdict) (t u : TokenTable) (tokens : SessionTokens)
      (r : RefreshToken)
      → find_hash (hash_token presented) t.rows ≡ some r
      → judge now resolve (find_hash (hash_token presented) t.rows) ≡ v
      → settled now token context v t ≡ (done tokens, u)
      → (is_live r ≡ true)
        × (find_hash (hash_token presented) u.rows ≡ some (consume_if now r.id r))
  unfolding settle_rotation
  settled-done now resolve presented token context (refuse why) t u tokens r f e h =
      absurd (ground (arith, h))
  settled-done now resolve presented token context (end_family family why) t u tokens r f e h =
      absurd (ground (arith, h))
  settled-done now resolve presented token context (spend x user_id) t u tokens r f e h =
      let (g, l) = judge-live now resolve (find_hash (hash_token presented) t.rows) x user_id e in
      let q : x ≡ r = some-injective x r (sym g ∙ f) in
      (
        subst (λ (y : RefreshToken). is_live y ≡ true) q l,
        subst
            (λ (y : RefreshToken).
              find_hash (hash_token presented) u.rows ≡ some (consume_if now y.id y))
            q
            (subst
              (λ (p : Result SessionTokens × TokenTable).
                find_hash (hash_token presented) p.1.rows ≡ some (consume_if now x.id x))
              h
              (unfold mint consume in
                find_hash-consumed (hash_token presented) now x.id t.rows
                  (new_row hash_token access_ttl refresh_ttl now user_id x.family_id token context
                      t.next_id
                    ∷ [])
                  x g)),
      )

  -- A token that was rotated, and is presented again before any other request touches the table, at
  -- whatever instant and by whomever, is refused as reused, and no live token of its family is left,
  -- the one it was exchanged for included.
  pub rotate-reused :
      (now later : ℕ) (resolve resolved : String → Option String) (presented token other : String)
      (context from : SessionContext) (t u : TokenTable) (tokens : SessionTokens) (r : RefreshToken)
      → find_hash (hash_token presented) t.rows ≡ some r
      → rotation now resolve presented token context t ≡ (done tokens, u)
      → ((rotation later resolved presented other from u).0 ≡ refused reused)
        × All
            (λ a. (is_live a && str_eq a.family_id r.family_id) ≡ false)
            (rotation later resolved presented other from u).1.rows
  unfolding rotate check_presented
  rotate-reused now later resolve resolved presented token other context from t u tokens r f h =
      let (l, g) = settled-done now resolve presented token context _ t u tokens r f refl h in
      let v : judge later resolved (find_hash (hash_token presented) u.rows)
          ≡ end_family r.family_id reused =
        ap (judge later resolved) g ∙ judge-spent now later resolved r l in
      rw v (
        unfold settle_rotation revoke_family revoke_where in
        (refl, family_revoked later r.family_id u.rows))

  clashing :
      (rows : List RefreshToken) (a b : RefreshToken)
      → Pairs (λ x y. clash x y ≡ false) ((rows ++ a ∷ []) ++ b ∷ [])
      → clash a b ≡ false
  clashing [] a b ((e, p), q) = e
  clashing (x ∷ xs) a b (p, q) = clashing xs a b q

  map-append_one :
      (f : RefreshToken → RefreshToken) (rows : List RefreshToken) (a : RefreshToken)
      → map f (rows ++ a ∷ []) ≡ map f rows ++ f a ∷ []
  map-append_one f [] a = refl
  map-append_one f (x ∷ xs) a = ap (◌∷◌ (f x)) (map-append_one f xs a)

  both_live :
      (later id : ℕ) (n m : RefreshToken)
      → id < n.id
      → is_live n ≡ true
      → is_live m ≡ true
      → n.family_id ≡ m.family_id
      → clash (consume_if later id n) m ≡ true
  both_live later id n m h a b e = ground (arith, h, a, b, e, eq_iff n.family_id m.family_id)

  spent_twice :
      (now later : ℕ) (token other user_id : String) (context from : SessionContext)
      (t : TokenTable) (r : RefreshToken)
      → r.id < t.next_id
      → let first = settled now token context (spend r user_id) t in
        let second = settled later other from (spend r user_id) first.1 in
        ((a : SessionTokens) × (b : SessionTokens) × (first.0 ≡ done a) × (second.0 ≡ done b))
        × (¬ OneLive second.1)
  unfolding settle_rotation mint consume
  spent_twice now later token other user_id context from t r h =
      let n =
        new_row hash_token access_ttl refresh_ttl now user_id r.family_id token context t.next_id in
      let m =
        new_row hash_token access_ttl refresh_ttl later user_id r.family_id other from
          (t.next_id + 1) in
      (
        (_, _, refl, refl),
        λ p.
            let e : clash (consume_if later r.id n) m ≡ false =
              clashing (map (consume_if later r.id) (map (consume_if now r.id) t.rows))
                (consume_if later r.id n) m
                (subst
                  (λ (rows : List RefreshToken). Pairs (λ x y. clash x y ≡ false) (rows ++ m ∷ []))
                  (map-append_one (consume_if later r.id) (map (consume_if now r.id) t.rows) n)
                  p) in
            cc (e, both_live later r.id n m h refl refl refl),
      )

  -- Two requests that present one token and both read it before either writes are both answered
  -- with a new pair, and the family has two tokens that can be rotated then.
  pub rotate-interleaved :
      (now later : ℕ) (resolve : String → Option String) (presented token other user_id : String)
      (context from : SessionContext) (t : TokenTable) (r : RefreshToken)
      → check_presented hash_token access_ttl refresh_ttl now resolve presented t ≡ spend r user_id
      → check_presented hash_token access_ttl refresh_ttl later resolve presented t
        ≡ spend r user_id
      → r.id < t.next_id
      → let checked = check_presented hash_token access_ttl refresh_ttl now resolve presented t in
        let again = check_presented hash_token access_ttl refresh_ttl later resolve presented t in
        let first = settled now token context checked t in
        let second = settled later other from again first.1 in
        ((a : SessionTokens) × (b : SessionTokens) × (first.0 ≡ done a) × (second.0 ≡ done b))
        × (¬ OneLive second.1)
  rotate-interleaved now later resolve presented token other user_id context from t r c d h =
      rw (c, d) (spent_twice now later token other user_id context from t r h)
