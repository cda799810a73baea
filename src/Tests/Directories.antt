-- ===== src/Tests/Directories.antt =====
-- role-mapping.ts and filter.ts on a person's groups and a search filter.
use nexuspuppet.Base.{ℕ, String, true, List, [], ◌∷◌, ◌≡◌, any, keep, arith, eq_iff}
use nexuspuppet.Value.Text.{codes}
use nexuspuppet.Directory.Roles.{RoleMapping, ResolvedRoles, normalize_dn, is_built_in}
use nexuspuppet.Directory.Roles.Laws.{maps_to}
use nexuspuppet.Directory.Filter.{escape_filter_value}
use nexuspuppet.Directory.Filter.Laws.{is_special, unescape, escape_filter_value_lem}
use nexuspuppet.Samples.{engine}

abbrev dns : List String
dns = "cn=ops, dc=x" ∷ "cn=dba,dc=x" ∷ []

abbrev mappings : List RoleMapping
mappings =
    record { group_dn = "cn=ops,dc=x"; role = "OPERATOR" }
    ∷ record { group_dn = "cn=dba,dc=x"; role = "DBA" }
    ∷ []

abbrev built_in_mappings : List RoleMapping
built_in_mappings =
    record { group_dn = "cn=ops,dc=x"; role = "VIEWER" }
    ∷ record { group_dn = "cn=ops,dc=x"; role = "OPERATOR" }
    ∷ []

abbrev union : ResolvedRoles
union = record { primary = "OPERATOR"; all = "OPERATOR" ∷ "DBA" ∷ [] }

built_in :
    (role : String)
    → any (maps_to engine dns role) built_in_mappings ≡ true
    → is_built_in role ≡ true
unfolding is_built_in normalize_dn
built_in role m = ground (arith, eq_iff "VIEWER" role, eq_iff "OPERATOR" role)

abbrev operator : ResolvedRoles
operator = record { primary = "OPERATOR"; all = "OPERATOR" ∷ [] }

escape_filter_value_lem_example :
    (keep is_special (escape_filter_value (codes "a*)(b")) ≡ [])
    × (unescape (escape_filter_value (codes "a*)(b")) ≡ codes "a*)(b")
escape_filter_value_lem_example = escape_filter_value_lem (codes "a*)(b")

abbrev template : List ℕ
template = codes "(uid={{input}})"
