-- ===== src/Inventory/Grouping.antt =====
-- apps/api/src/inventory/pure/group-resources.ts: the resources of the estate, by what they declare.
pub mod Laws
use nexuspuppet.Base.{
  ℕ, String, Bool, true, false, Option, none, some, List, [], ◌∷◌, ◌++◌, map, str_eq, ltb, ◌==◌,
  if◌then◌else◌, length, take, fold, ◌≡◌, refl, ◌+◌, arith, ap, ◌∙◌,
}
use nexuspuppet.Base.Dict.{Dict, get, put}
use nexuspuppet.Base.Sort.{sort}
use nexuspuppet.Value.Text.{text_before, join}

pub record ResourceSummary : Type 0 where
  pub kind : String
  pub title : String
  pub environment : String
  pub certname : String
  pub resource_hash : String
  pub file : Option String
  pub line : Option ℕ

pub record ResourceVariant : Type 0 where
  pub resource_hash : String
  pub node_count : ℕ
  pub sample_certname : Option String
  pub certnames : List String

pub record ResourceGroup : Type 0 where
  pub kind : String
  pub title : String
  pub environment : String
  pub node_count : ℕ
  pub variant_count : ℕ
  pub variants : List ResourceVariant
  pub file : Option String
  pub line : Option ℕ

abbrev max_certnames_per_variant : ℕ
max_certnames_per_variant = 25

unfoldable pub key_of : ResourceSummary → String
unfolding join
key_of r = join "\t" (r.kind ∷ r.title ∷ r.environment ∷ [])

abbrev pub bucket_of : Option (List ResourceSummary) → List ResourceSummary
bucket_of none = []
bucket_of (some bucket) = bucket

-- The loops that fill the buckets of a map.
unfoldable pub add_to :
    (ResourceSummary → String)
    → Dict (List ResourceSummary)
    → ResourceSummary
    → Dict (List ResourceSummary)
add_to key m r = put m (key r) (bucket_of (get m (key r)) ++ r ∷ [])

unfoldable pub bucket_by :
    (ResourceSummary → String) → List ResourceSummary → Dict (List ResourceSummary)
unfolding add_to
bucket_by key rs = fold (add_to key) [] rs

abbrev first_of : List String → Option String
first_of [] = none
first_of (c ∷ cs) = some c

unfoldable pub variant_of : String × List ResourceSummary → ResourceVariant
variant_of (hash, carriers) =
    let certnames = sort text_before (map (λ (c : ResourceSummary). c.certname) carriers) in
    record {
      resource_hash = hash;
      node_count = length carriers;
      sample_certname = first_of certnames;
      certnames = take max_certnames_per_variant certnames;
    }

unfoldable pub variant_before : ResourceVariant → ResourceVariant → Bool
variant_before a b =
    if a.node_count == b.node_count
    then text_before a.resource_hash b.resource_hash
    else ltb b.node_count a.node_count

unfoldable pub variants_of : List ResourceSummary → List ResourceVariant
unfolding bucket_by variant_of variant_before
variants_of members =
    sort variant_before (map variant_of (bucket_by (λ r. r.resource_hash) members))

-- A bucket holds at least what it was made for; an empty one would have no row.
abbrev group_of : List ResourceSummary → List ResourceGroup
group_of [] = []
group_of (first ∷ rest) =
    let variants = variants_of (first ∷ rest) in
    record {
      kind = first.kind;
      title = first.title;
      environment = first.environment;
      node_count = length (first ∷ rest);
      variant_count = length variants;
      variants = variants;
      file = first.file;
      line = first.line;
    }
    ∷ []

abbrev groups_of : Dict (List ResourceSummary) → List ResourceGroup
groups_of [] = []
groups_of ((key, members) ∷ m) = group_of members ++ groups_of m

-- The comparison of the groups is below 0.
unfoldable pub group_before : ResourceGroup → ResourceGroup → Bool
group_before a b =
    if a.variant_count == b.variant_count
    then (if a.node_count == b.node_count
        then (if str_eq a.title b.title
            then text_before a.environment b.environment
            else text_before a.title b.title)
        else ltb b.node_count a.node_count)
    else ltb b.variant_count a.variant_count

unfoldable pub group_resources : List ResourceSummary → List ResourceGroup
unfolding key_of bucket_by variants_of group_before
group_resources resources = sort group_before (groups_of (bucket_by key_of resources))
