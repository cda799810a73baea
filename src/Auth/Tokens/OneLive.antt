-- ===== src/Auth/Tokens/OneLive.antt =====
-- That token.service.ts keeps one refresh token of a family in use.
use mathlib.Core.Path.{subst}
use mathlib.Core.Option.{some-injective}
use nexuspuppet.Base.{
  ℕ, String, Bool, true, false, not, ◌&&◌, Option, none, some, List, [], ◌∷◌, ◌++◌, map, ◌≡◌, refl,
  sym, ◌∙◌, arith, str_eq, eq_iff, if_true, ◌==◌, All, Bool-cases, inl, inr, Option-cases,
}
use nexuspuppet.Base.Sort.{Pairs, Pairs-keep, All-map_of}
use nexuspuppet.Auth.Tokens.{
  RefreshToken, TokenTable, SessionContext, Verdict, refuse, end_family, spend, is_live, revoke_if,
  revoke_where, find_hash, consume_if, consume, revoke_family, new_row, mint, issue, judge,
  check_presented, settle_rotation, rotate, revoke, revoke_all_for_user, prune_expired,
}

-- Two rows of one family that can both be rotated.
abbrev pub clash : RefreshToken → RefreshToken → Bool
clash a b = (is_live a && is_live b) && str_eq a.family_id b.family_id

abbrev pub OneLive : TokenTable → Type 0
OneLive t = Pairs (λ a b. clash a b ≡ false) t.rows

-- A change of a row that keeps its family and revives none.
abbrev Tame : (RefreshToken → RefreshToken) → Type 0
Tame f =
    (r : RefreshToken)
    → ((f r).family_id ≡ r.family_id) × ((is_live r && is_live (f r)) ≡ is_live (f r))

Tame-revoke_if : (now : ℕ) (p : RefreshToken → Bool) → Tame (revoke_if now p)
Tame-revoke_if now p r = ground arith

Tame-consume_if : (now id : ℕ) → Tame (consume_if now id)
Tame-consume_if now id r = ground arith

clash-Tame :
    (f : RefreshToken → RefreshToken) (a b : RefreshToken)
    → Tame f
    → clash a b ≡ false
    → clash (f a) (f b) ≡ false
clash-Tame f a b h k = let (x, y) = h a in let (z, u) = h b in ground (arith, x, y, z, u, k)

map-Tame :
    (f : RefreshToken → RefreshToken) (rows : List RefreshToken)
    → Tame f
    → Pairs (λ a b. clash a b ≡ false) rows
    → Pairs (λ a b. clash a b ≡ false) (map f rows)
map-Tame f [] h k = tt
map-Tame f (r ∷ rs) h (a, k) = (tamed rs a, map-Tame f rs h k)
  where
    tamed :
        (xs : List RefreshToken)
        → All (λ b. clash r b ≡ false) xs
        → All (λ b. clash (f r) b ≡ false) (map f xs)
    tamed [] a = tt
    tamed (x ∷ xs) (e, a) = (clash-Tame f r x h e, tamed xs a)

-- The rows of a live row's family, but for those with its id, cannot be rotated.
abbrev Spent : RefreshToken → RefreshToken → Type 0
Spent r a = ((is_live a && str_eq a.family_id r.family_id) && not (a.id == r.id)) ≡ false

find_hash-all :
    (P : RefreshToken → Type 0) (h : String) (rows : List RefreshToken) (r : RefreshToken)
    → All P rows
    → find_hash h rows ≡ some r
    → P r
unfolding find_hash
find_hash-all P h [] r a e = cc
find_hash-all P h (x ∷ xs) r (p, a) e = elim (Bool-cases (str_eq x.token_hash h)) [
  | inl q ↦ subst P (some-injective x r (sym (if_true _ (some x) _ q) ∙ e)) p
  | inr q ↦ find_hash-all P h xs r a (ground (arith, q, e))
]

Spent-by : (x r : RefreshToken) → is_live r ≡ true → clash x r ≡ false → Spent r x
Spent-by x r l c = ground (arith, l, c)

Spent-after : (r x : RefreshToken) → is_live r ≡ true → clash r x ≡ false → Spent r x
Spent-after r x l c =
    ground (arith, l, c, eq_iff r.family_id x.family_id, eq_iff x.family_id r.family_id)

Spent-self : (r : RefreshToken) → Spent r r
Spent-self r = ground arith

find_hash-Spent :
    (h : String) (rows : List RefreshToken) (r : RefreshToken)
    → find_hash h rows ≡ some r
    → is_live r ≡ true
    → Pairs (λ a b. clash a b ≡ false) rows
    → All (Spent r) rows
unfolding find_hash
find_hash-Spent h [] r e l p = cc
find_hash-Spent h (x ∷ xs) r e l (a, p) = elim (Bool-cases (str_eq x.token_hash h)) [
  | inl q ↦
      subst (λ (y : RefreshToken). is_live y ≡ true → All (Spent y) (x ∷ xs))
        (some-injective x r (sym (if_true _ (some x) _ q) ∙ e))
        (λ lx. (Spent-self x, All-map_of (Spent x) (λ b. Spent-after x b lx) xs a)) l
  | inr q ↦
      let f : find_hash h xs ≡ some r = ground (arith, q, e) in
      (
        Spent-by x r l (find_hash-all (λ b. clash x b ≡ false) h xs r a f),
        find_hash-Spent h xs r f l p,
      )
]

-- A row put behind rows that it does not clash with.
Pairs-behind :
    (rows : List RefreshToken) (n : RefreshToken)
    → All (λ a. clash a n ≡ false) rows
    → Pairs (λ a b. clash a b ≡ false) rows
    → Pairs (λ a b. clash a b ≡ false) (rows ++ n ∷ [])
Pairs-behind [] n a p = (tt, tt)
Pairs-behind (x ∷ xs) n (c, a) (b, p) = (all_behind xs b, Pairs-behind xs n a p)
  where
    all_behind :
        (ys : List RefreshToken)
        → All (λ y. clash x y ≡ false) ys
        → All (λ y. clash x y ≡ false) (ys ++ n ∷ [])
    all_behind [] b = (c, tt)
    all_behind (y ∷ ys) (e, b) = (e, all_behind ys b)

consumed-All :
    (now : ℕ) (r n : RefreshToken) (rows : List RefreshToken)
    → n.family_id ≡ r.family_id
    → All (Spent r) rows
    → All (λ a. clash a n ≡ false) (map (consume_if now r.id) rows)
consumed-All now r n [] e a = tt
consumed-All now r n (x ∷ xs) e (s, a) = (ground (arith, s, e), consumed-All now r n xs e a)

pub judge-live :
    (now : ℕ) (resolve : String → Option String) (o : Option RefreshToken) (r : RefreshToken)
    (user_id : String)
    → judge now resolve o ≡ spend r user_id
    → (o ≡ some r) × (is_live r ≡ true)
unfolding judge
judge-live now resolve none r user_id h = cc
judge-live now resolve (some x) r user_id h = elim (Option-cases (resolve x.user_id)) [
  | inl e ↦ ground (arith, h, e)
  | inr (p, e) ↦ ground (arith, h, e)
]

-- What the service does to its table, and a request or a sweep at a time: a session begins with a
-- family that no row has, a token is rotated, and rows are revoked or pruned.
pub data Step (hash_token : String → String) (access_ttl refresh_ttl : ℕ)
    : TokenTable → TokenTable → Type 0 where
  begun :
      (now : ℕ) (user_id family token : String) (context : SessionContext) (t : TokenTable)
      → All (λ r. str_eq r.family_id family ≡ false) t.rows
      → Step hash_token access_ttl refresh_ttl t
          (issue hash_token access_ttl refresh_ttl now user_id family token context t).1
  rotated :
      (now : ℕ) (resolve : String → Option String) (presented token : String)
      (context : SessionContext) (t : TokenTable)
      → Step hash_token access_ttl refresh_ttl t
          (rotate hash_token access_ttl refresh_ttl now resolve presented token context t).1
  ended :
      (now : ℕ) (presented : String) (t : TokenTable)
      → Step hash_token access_ttl refresh_ttl t
          (revoke hash_token access_ttl refresh_ttl now presented t)
  family_ended :
      (now : ℕ) (family : String) (t : TokenTable)
      → Step hash_token access_ttl refresh_ttl t (revoke_family now family t)
  user_ended :
      (now : ℕ) (user_id : String) (except : Option String) (t : TokenTable)
      → Step hash_token access_ttl refresh_ttl t
          (revoke_all_for_user hash_token access_ttl refresh_ttl now user_id except t)
  pruned :
      (older_than : ℕ) (t : TokenTable)
      → Step hash_token access_ttl refresh_ttl t (prune_expired older_than t).1

-- The tables that the service can have, from an empty one on.
pub data Reachable (hash_token : String → String) (access_ttl refresh_ttl : ℕ)
    : TokenTable → Type 0 where
  created : Reachable hash_token access_ttl refresh_ttl (record { rows = []; next_id = 0 })
  stepped :
      {t u : TokenTable}
      → Reachable hash_token access_ttl refresh_ttl t
      → Step hash_token access_ttl refresh_ttl t u
      → Reachable hash_token access_ttl refresh_ttl u

module _ (hash_token : String → String) (access_ttl refresh_ttl : ℕ) where
  OneLive-settle :
      (now : ℕ) (token presented : String) (resolve : String → Option String)
      (context : SessionContext) (v : Verdict) (t : TokenTable)
      → judge now resolve (find_hash (hash_token presented) t.rows) ≡ v
      → OneLive t
      → OneLive (settle_rotation hash_token access_ttl refresh_ttl now token context v t).1
  unfolding settle_rotation
  OneLive-settle now token presented resolve context (refuse why) t e p = p
  OneLive-settle now token presented resolve context (end_family family why) t e p =
      unfold revoke_family revoke_where in
      map-Tame (revoke_if now (λ r. str_eq r.family_id family)) t.rows
        (Tame-revoke_if now (λ r. str_eq r.family_id family)) p
  OneLive-settle now token presented resolve context (spend r user_id) t e p =
      let (f, l) = judge-live now resolve (find_hash (hash_token presented) t.rows) r user_id e in
      unfold mint consume in
      let n =
        new_row hash_token access_ttl refresh_ttl now user_id r.family_id token context t.next_id in
      Pairs-behind (map (consume_if now r.id) t.rows) n
        (consumed-All now r n t.rows refl (find_hash-Spent (hash_token presented) t.rows r f l p))
        (map-Tame (consume_if now r.id) t.rows (Tame-consume_if now r.id) p)

  OneLive-step :
      {t u : TokenTable} → Step hash_token access_ttl refresh_ttl t u → OneLive t → OneLive u
  unfolding issue mint rotate revoke revoke_where revoke_family revoke_all_for_user prune_expired
      check_presented
  OneLive-step (begun now user_id family token context t fresh) p =
      let n =
        new_row hash_token access_ttl refresh_ttl now user_id family token context t.next_id in
      Pairs-behind t.rows n
        (All-map_of (λ a. clash a n ≡ false) (λ a f. ground (arith, f)) t.rows fresh) p
  OneLive-step (rotated now resolve presented token context t) p =
      OneLive-settle now token presented resolve context _ t refl p
  OneLive-step (ended now presented t) p = map-Tame _ t.rows (Tame-revoke_if now _) p
  OneLive-step (family_ended now family t) p = map-Tame _ t.rows (Tame-revoke_if now _) p
  OneLive-step (user_ended now user_id except t) p = map-Tame _ t.rows (Tame-revoke_if now _) p
  OneLive-step (pruned older_than t) p = Pairs-keep _ (λ a b. clash a b ≡ false) t.rows p

  -- However sessions begin, are refreshed, end and are pruned, one request after the other, no two
  -- tokens of one family can both be rotated.
  pub Reachable-OneLive :
      {t : TokenTable} → Reachable hash_token access_ttl refresh_ttl t → OneLive t
  Reachable-OneLive created = tt
  Reachable-OneLive (stepped r s) = OneLive-step s (Reachable-OneLive r)
