-- ===== src/Auth/Tokens/Revoked.antt =====
-- Whose sessions token.service.ts ends when it ends those of a user.
use mathlib.Core.Option.{some-injective}
use nexuspuppet.Base.{
  ℕ, String, Bool, true, false, not, ◌&&◌, none, some, List, [], ◌∷◌, map, ◌≡◌, sym, ◌∙◌, ap, arith,
  str_eq, eq_refl, if_true, All, Bool-cases, inl, inr,
}
use nexuspuppet.Auth.Tokens.{
  RefreshToken, TokenTable, is_unset, revoke_if, revoke_where, find_hash, revoke_all_for_user,
  is_other_family, spared_family,
}

-- What passes a test that implies the one for revoking is revoked.
ended :
    (now : ℕ) (p q : RefreshToken → Bool) (rows : List RefreshToken)
    → ((r : RefreshToken) → q r ≡ true → p r ≡ true)
    → ((r : RefreshToken) → q (revoke_if now p r) ≡ q r)
    → All (λ a. (q a && is_unset a.revoked_at) ≡ false) (map (revoke_if now p) rows)
ended now p q [] h k = tt
ended now p q (r ∷ rs) h k = (ground (arith, h r, k r), ended now p q rs h k)

found_same :
    (now : ℕ) (h : String) (p : RefreshToken → Bool) (rows : List RefreshToken) (r : RefreshToken)
    → find_hash h rows ≡ some r
    → p r ≡ false
    → find_hash h (map (revoke_if now p) rows) ≡ some r
unfolding find_hash
found_same now h p [] r e f = cc
found_same now h p (x ∷ xs) r e f = elim (Bool-cases (str_eq x.token_hash h)) [
  | inl q ↦
      let s : x ≡ r = some-injective x r (sym (if_true _ (some x) _ q) ∙ e) in
      ground (arith, q, e, f, ap p s)
  | inr q ↦ ground (arith, q, e, found_same now h p xs r)
]

module _ (hash_token : String → String) (access_ttl refresh_ttl : ℕ) where
  -- Without a token to spare every session of the user ends.
  pub revoke_all_for_user-every :
      (now : ℕ) (user_id : String) (t : TokenTable)
      → All
          (λ a. (str_eq a.user_id user_id && is_unset a.revoked_at) ≡ false)
          (revoke_all_for_user hash_token access_ttl refresh_ttl now user_id none t).rows
  unfolding revoke_all_for_user revoke_where
  revoke_all_for_user-every now user_id t =
      ended now (λ a. str_eq a.user_id user_id && is_other_family none a)
        (λ a. str_eq a.user_id user_id) t.rows (λ a q. ground (arith, q)) (λ a. ground arith)

  -- A token of somebody else's spares nothing: every session of the user ends.
  pub revoke_all_for_user-foreign :
      (now : ℕ) (user_id token : String) (t : TokenTable) (r : RefreshToken)
      → find_hash (hash_token token) t.rows ≡ some r
      → str_eq r.user_id user_id ≡ false
      → All
          (λ a. (str_eq a.user_id user_id && is_unset a.revoked_at) ≡ false)
          (revoke_all_for_user hash_token access_ttl refresh_ttl now user_id (some token) t).rows
  unfolding revoke_all_for_user
  revoke_all_for_user-foreign now user_id token t r f h =
      let spared = spared_family hash_token access_ttl refresh_ttl user_id (some token) t.rows in
      let none_spared : spared ≡ none = ground (arith, f, h) in
      rw none_spared (
        unfold revoke_where in
        ended now (λ a. str_eq a.user_id user_id && is_other_family none a)
          (λ a. str_eq a.user_id user_id) t.rows (λ a q. ground (arith, q)) (λ a. ground arith))

  -- The user's own token spares its family alone: its row stays as it is, and every session of the
  -- user in another family ends.
  pub revoke_all_for_user-own :
      (now : ℕ) (user_id token : String) (t : TokenTable) (r : RefreshToken)
      → find_hash (hash_token token) t.rows ≡ some r
      → str_eq r.user_id user_id ≡ true
      → str_eq token "" ≡ false
      → let u = revoke_all_for_user hash_token access_ttl refresh_ttl now user_id (some token) t in
        (find_hash (hash_token token) u.rows ≡ some r)
        × All
            (λ a.
              ((str_eq a.user_id user_id && not (str_eq a.family_id r.family_id))
                && is_unset a.revoked_at)
              ≡ false)
            u.rows
  unfolding revoke_all_for_user
  revoke_all_for_user-own now user_id token t r f h e =
      let spared = spared_family hash_token access_ttl refresh_ttl user_id (some token) t.rows in
      let own : spared ≡ some r.family_id = ground (arith, f, h, e) in
      rw own (
        unfold revoke_where in
        (
          found_same now (hash_token token)
              (λ a. str_eq a.user_id user_id && is_other_family (some r.family_id) a) t.rows r f
              (ground (arith, eq_refl r.family_id)),
          ended now (λ a. str_eq a.user_id user_id && is_other_family (some r.family_id) a)
              (λ a. str_eq a.user_id user_id && not (str_eq a.family_id r.family_id)) t.rows
              (λ a q. ground (arith, q)) (λ a. ground arith),
        ))
