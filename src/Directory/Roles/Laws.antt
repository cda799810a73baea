-- ===== src/Directory/Roles/Laws.antt =====
-- What role-mapping.ts decides: no default role, the highest built-in, the union of custom roles.
use nexuspuppet.Base.Membership.{includes-append}
use nexuspuppet.Base.{
  ◌≤◌, String, Bool, true, false, not, ◌&&◌, ◌||◌, none, some, List, [], ◌∷◌, ◌++◌, map, ◌≡◌, ◌↔◌,
  refl, arith, eq_iff, str_eq, every, any, includes, eq_refl, sym, ap, ◌∙◌, inl, inr, Bool-cases,
}
use nexuspuppet.Value.{Engine}
use nexuspuppet.Directory.Roles.{
  rank, is_built_in, RoleMapping, ResolvedRoles, highest, resolved, normalize_dn, matched_roles,
  resolve_roles,
}

-- Names where a test holds of every name that a list includes.
every-includes :
    (p : String → Bool) (xs : List String)
    → every p xs ≡ true
    → (s : String) → includes xs s ≡ true
    → p s ≡ true
every-includes p [] h s m = cc
every-includes p (x ∷ xs) h s m =
    ground (arith, eq_iff x s, every-includes p xs, every-includes p xs (ground arith) s)

includes-every :
    (p : String → Bool) (xs : List String)
    → ((s : String) → includes xs s ≡ true → p s ≡ true)
    → every p xs ≡ true
includes-every p [] h = refl
includes-every p (x ∷ xs) h =
    ground (arith, h x, eq_refl x, includes-every p xs (λ s m. h s (ground arith)))

highest-ge : (best : String) (names : List String) → rank best ≤ rank (highest best names)
unfolding highest
highest-ge best [] = omega arith
highest-ge best (name ∷ names) = grind (arith, highest-ge best names, highest-ge name names)

highest-bounds :
    (best : String) (names : List String) (s : String)
    → includes (best ∷ names) s ≡ true
    → rank s ≤ rank (highest best names)
unfolding highest
highest-bounds best [] s m = ground (arith, eq_iff best s)
highest-bounds best (name ∷ names) s m = ground (
  arith,
  eq_iff best s,
  eq_iff name s,
  highest-ge best names,
  highest-ge name names,
  highest-bounds best names s,
  highest-bounds name names s,
)

highest-includes :
    (best : String) (names : List String) → includes (best ∷ names) (highest best names) ≡ true
unfolding highest
highest-includes best [] = ground (arith, eq_refl best)
highest-includes best (name ∷ names) =
    ground (arith, highest-includes best names, highest-includes name names)

abbrev is_empty : List String → Bool
is_empty [] = true
is_empty (x ∷ xs) = false

is_empty-append : (xs : List String) (x : String) → is_empty (xs ++ x ∷ []) ≡ false
is_empty-append [] x = refl
is_empty-append (y ∷ ys) x = refl

not_empty : (xs : List String) (x : String) → includes xs x ≡ true → is_empty xs ≡ false
not_empty [] x m = cc
not_empty (y ∷ ys) x m = refl

module _ (js : Engine) (group_dns : List String) where
  -- The person is in the group that the mapping names.
  abbrev pub is_member : RoleMapping → Bool
  is_member m = includes (map (normalize_dn js) group_dns) (normalize_dn js m.group_dn)

  abbrev pub maps_to : String → RoleMapping → Bool
  maps_to role m = is_member m && str_eq m.role role

  includes-matched :
      (role : String) (ms : List RoleMapping) (matched : List String)
      → includes (matched_roles js (map (normalize_dn js) group_dns) matched ms) role
        ≡ (includes matched role || any (maps_to role) ms)
  unfolding matched_roles
  includes-matched role [] matched = ground arith
  includes-matched role (m ∷ ms) matched = ground (
    arith,
    eq_iff m.role role,
    includes-append matched m.role role,
    includes-matched role ms matched,
    includes-matched role ms (matched ++ m.role ∷ []),
  )

  is_empty-matched :
      (ms : List RoleMapping) (matched : List String)
      → is_empty (matched_roles js (map (normalize_dn js) group_dns) matched ms)
        ≡ (is_empty matched && not (any is_member ms))
  unfolding matched_roles
  is_empty-matched [] matched = ground arith
  is_empty-matched (m ∷ ms) matched = ground (
    arith,
    is_empty-matched ms matched,
    is_empty-matched ms (matched ++ m.role ∷ []),
    is_empty-append matched m.role,
    not_empty matched m.role,
  )

  -- Nobody is let in by default: no role is resolved exactly when the person is in no group that a
  -- mapping names.
  pub resolve_roles-none :
      (mappings : List RoleMapping)
      → (resolve_roles js group_dns mappings ≡ none) ↔ (any is_member mappings ≡ false)
  unfolding resolve_roles
  resolve_roles-none mappings =
      by_matched (matched_roles js (map (normalize_dn js) group_dns) [] mappings)
        (is_empty-matched mappings [])
    where
      by_matched :
          (matched : List String)
          → is_empty matched ≡ not (any is_member mappings)
          → (resolved matched ≡ none) ↔ (any is_member mappings ≡ false)
      by_matched [] e = ground arith
      by_matched (x ∷ xs) e = ground arith

  resolved-custom :
      (matched : List String) (r : ResolvedRoles) (c : String)
      → includes matched c ≡ true
      → is_built_in c ≡ false
      → resolved matched ≡ some r
      → r.all ≡ matched
  resolved-custom [] r c m b e = cc
  resolved-custom (x ∷ xs) r c m b e = elim (Bool-cases (every is_built_in (x ∷ xs))) [
    | inl h ↦ cc (every-includes is_built_in (x ∷ xs) h c m)
    | inr f ↦ ground arith
  ]

  resolved-built_in :
      (matched : List String) (r : ResolvedRoles)
      → every is_built_in matched ≡ true
      → resolved matched ≡ some r
      → (r.all ≡ r.primary ∷ [])
        × (includes matched r.primary ≡ true)
        × ((s : String) → includes matched s ≡ true → rank s ≤ rank r.primary)
  resolved-built_in [] r h e = cc
  resolved-built_in (x ∷ xs) r h e =
      let p : r ≡ record { primary = highest x xs; all = highest x xs ∷ [] } = ground arith in
      rw p (refl, highest-includes x xs, highest-bounds x xs)

  -- Where a custom role is among those mapped, the roles are the union: exactly those that a mapping
  -- gives for a group that the person is in.
  pub resolve_roles-union :
      (mappings : List RoleMapping) (r : ResolvedRoles) (custom : String)
      → is_built_in custom ≡ false
      → any (maps_to custom) mappings ≡ true
      → resolve_roles js group_dns mappings ≡ some r
      → (role : String) → includes r.all role ≡ any (maps_to role) mappings
  unfolding resolve_roles
  resolve_roles-union mappings r custom b m e role =
      ap (λ l. includes l role)
        (resolved-custom _ r custom (includes-matched custom mappings [] ∙ m) b e)
      ∙ includes-matched role mappings []

  -- Where only built-in roles are mapped, the person gets one role: one that is mapped, and none that
  -- is mapped ranks above it.
  pub resolve_roles-highest :
      (mappings : List RoleMapping) (r : ResolvedRoles)
      → ((role : String) → any (maps_to role) mappings ≡ true → is_built_in role ≡ true)
      → resolve_roles js group_dns mappings ≡ some r
      → (role : String) → any (maps_to role) mappings ≡ true
      → (r.all ≡ r.primary ∷ [])
        × (any (maps_to r.primary) mappings ≡ true)
        × (rank role ≤ rank r.primary)
  unfolding resolve_roles
  resolve_roles-highest mappings r h e role m =
      let (one, from, top) =
        resolved-built_in (matched_roles js (map (normalize_dn js) group_dns) [] mappings) r
          (includes-every is_built_in _ (λ s m. h s (sym (includes-matched s mappings []) ∙ m)))
          e in
      (
        one,
        sym (includes-matched r.primary mappings []) ∙ from,
        top role (includes-matched role mappings [] ∙ m),
      )
