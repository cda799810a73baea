-- ===== src/Inventory/Differing.antt =====
-- apps/api/src/inventory/pure/diff-parameters.ts: the parameters on which a resource's variants
-- differ.
pub mod Laws
use Prim.Native.String
use nexuspuppet.Base.{
  ℕ, String, Bool, true, false, not, Option, none, some, List, [], ◌∷◌, ◌++◌, map, str_eq, ltb,
  if◌then◌else◌, length, any, includes, keep,
}
use nexuspuppet.Base.Sort.{sort}
use nexuspuppet.Value.{Value, null, bool, num, str, arr, obj, Items, nil, cons, Fields, end, field}
use nexuspuppet.Value.Text.{text_before, join}
use nexuspuppet.Materialization.Rules.{field_of}

-- A parameter that is absent: a control character, and "absent".
abbrev pub absent : String
absent = "\0absent"

abbrev entry_before : String × String → String × String → Bool
entry_before a b = text_before a.0 b.0

pub record ResourceParameters (N : Type 0) : Type 0 where
  pub parameters : Fields N

abbrev add_names : {N : Type 0} → List String → Fields N → List String
add_names keys end = keys
add_names keys (field k v fs) = add_names (if includes keys k then keys else keys ++ k ∷ []) fs

-- The set of the keys of every variant.
unfoldable pub all_keys : {N : Type 0} → List String → List (ResourceParameters N) → List String
all_keys keys [] = keys
all_keys keys (variant ∷ variants) = all_keys (add_names keys variant.parameters) variants

-- `JSON.stringify` of a value that is no object, and of a key, are the engine's.
module _ {N : Type 0} (stringify : Value N → String) where
  abbrev pair_text : String × String → String
  pair_text (k, t) = join "" (stringify (str k) ∷ ":" ∷ t ∷ [])

  mutual
    pub canonical : Value N → String
    canonical (arr vs) = join "" ("[" ∷ join "," (canonical_items vs) ∷ "]" ∷ [])
    canonical (obj fs) =
        join ""
          ("{" ∷ join "," (map pair_text (sort entry_before (canonical_fields fs))) ∷ "}" ∷ [])
    canonical v = stringify v

    canonical_items : Items N → List String
    canonical_items nil = []
    canonical_items (cons v vs) = canonical v ∷ canonical_items vs

    canonical_fields : Fields N → List (String × String)
    canonical_fields end = []
    canonical_fields (field k v fs) = (k, canonical v) ∷ canonical_fields fs

  abbrev pub text_of : Option (Value N) → String
  text_of none = absent
  text_of (some v) = canonical v

  -- `canonical(variant.parameters[key])`
  unfoldable pub canonical_at : ResourceParameters N → String → String
  unfolding field_of
  canonical_at variant key = text_of (field_of variant.parameters key)

  -- Some variant differs from the first.
  abbrev pub differs : List (ResourceParameters N) → String → Bool
  differs [] key = false
  differs (first ∷ rest) key =
      any (λ v. not (str_eq (canonical_at v key) (canonical_at first key))) (first ∷ rest)

  unfoldable pub differing_keys : List (ResourceParameters N) → List String
  unfolding canonical_at all_keys
  differing_keys variants =
      if ltb (length variants) 2
      then []
      else sort text_before (keep (differs variants) (all_keys [] variants))
