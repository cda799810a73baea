-- ===== src/Directory/Roles.antt =====
-- apps/api/src/directory/ldap/role-mapping.ts: the roles that a directory's groups stand for.
pub mod Laws
use nexuspuppet.Base.{
  ℕ, String, Bool, true, false, not, Option, none, some, List, [], ◌∷◌, ◌++◌, map, str_eq,
  if◌then◌else◌, ltb, every, keep, includes,
}
use nexuspuppet.Value.{Engine}
use nexuspuppet.Value.Text.{split_at, trim, join}

-- `RANK`, and `none` for a name that it lacks.
abbrev pub rank_of : String → Option ℕ
rank_of name =
    if str_eq name "VIEWER"
    then some 1
    else if str_eq name "OPERATOR"
    then some 2
    else if str_eq name "ADMIN"
    then some 3
    else none

abbrev pub rank_or_zero : Option ℕ → ℕ
rank_or_zero none = 0
rank_or_zero (some n) = n

-- `RANK[name]`; only built-in names are compared.
unfoldable pub rank : String → ℕ
rank name = rank_or_zero (rank_of name)

abbrev is_ranked : Option ℕ → Bool
is_ranked none = false
is_ranked (some n) = true

unfoldable pub is_built_in : String → Bool
is_built_in name = is_ranked (rank_of name)

pub record RoleMapping : Type 0 where
  pub group_dn : String
  pub role : String

pub record ResolvedRoles : Type 0 where
  pub primary : String
  pub all : List String

-- `names.reduce((a, b) => (RANK[b] > RANK[a] ? b : a))`, from its first element.
unfoldable pub highest : String → List String → String
highest best [] = best
highest best (name ∷ names) = highest (if ltb (rank best) (rank name) then name else best) names

abbrev highest_or : String → List String → String
highest_or other [] = other
highest_or other (name ∷ names) = highest name names

abbrev pub resolved : List String → Option ResolvedRoles
resolved [] = none
resolved (role ∷ roles) =
    if every is_built_in (role ∷ roles)
    then (let best = highest role roles in some (record { primary = best; all = best ∷ [] }))
    else some
        (record { primary = highest_or role (keep is_built_in (role ∷ roles)); all = role ∷ roles })

module _ (js : Engine) where
  unfoldable pub normalize_dn : String → String
  unfolding split_at trim join
  normalize_dn dn = js.to_lower (join "," (map trim (split_at b',' dn)))

  -- The loop over the mappings.
  unfoldable pub matched_roles : List String → List String → List RoleMapping → List String
  unfolding normalize_dn
  matched_roles held matched [] = matched
  matched_roles held matched (m ∷ ms) =
      matched_roles held
        (if includes held (normalize_dn m.group_dn)
          then (if includes matched m.role then matched else matched ++ m.role ∷ [])
          else matched)
        ms

  unfoldable pub resolve_roles : List String → List RoleMapping → Option ResolvedRoles
  unfolding matched_roles is_built_in highest rank
  resolve_roles group_dns role_mappings =
      resolved (matched_roles (map normalize_dn group_dns) [] role_mappings)
