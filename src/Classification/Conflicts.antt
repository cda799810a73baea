-- ===== src/Classification/Conflicts.antt =====
-- apps/api/src/classification/pure/aggregate-conflicts.ts: the conflicts of every node, folded into
-- one row for each override.
pub mod Laws
use nexuspuppet.Base.{
  ℕ, ◌+◌, String, Bool, true, false, Option, none, some, List, [], ◌∷◌, ◌++◌, map, str_eq, ltb,
  ◌==◌, if◌then◌else◌, length, includes, fold,
}
use nexuspuppet.Base.Dict.{Dict, get, put}
use nexuspuppet.Base.Sort.{sort}
use nexuspuppet.Value.{Engine}
use nexuspuppet.Value.Text.{join}
use nexuspuppet.Materialization.Merge.{
  ConflictKind, class_parameter, top_scope_parameter, environment, ClassificationConflict,
}

pub record AggregatedConflict : Type 0 where
  pub kind : ConflictKind
  pub key : String
  pub winning_group_id : String
  pub winning_group_name : String
  pub losing_group_id : String
  pub losing_group_name : String
  pub node_count : ℕ
  pub example_certnames : List String

pub record NodeConflicts (N : Type 0) : Type 0 where
  pub certname : String
  pub conflicts : List (ClassificationConflict N)

abbrev pub max_examples : ℕ
max_examples = 5

abbrev kind_text : ConflictKind → String
kind_text class_parameter = "CLASS_PARAMETER"
kind_text top_scope_parameter = "TOP_SCOPE_PARAMETER"
kind_text environment = "ENVIRONMENT"

-- The values of a map, in the order of its keys.
abbrev pub values : {V : Type 0} → Dict V → List V
values [] = []
values ((k, v) ∷ m) = v ∷ values m

abbrev seen_again : String → AggregatedConflict → AggregatedConflict
seen_again certname a = record a {
  node_count = a.node_count + 1;
  example_certnames =
      (if ltb (length a.example_certnames) max_examples
        then a.example_certnames ++ certname ∷ []
        else a.example_certnames);
}

module _ {N : Type 0} where
  unfoldable pub identity : ClassificationConflict N → String
  unfolding join
  identity c = join "\0" (kind_text c.kind ∷ c.key ∷ c.winning_group_id ∷ c.losing_group_id ∷ [])

  abbrev first_seen : String → ClassificationConflict N → AggregatedConflict
  first_seen certname c = record {
    kind = c.kind;
    key = c.key;
    winning_group_id = c.winning_group_id;
    winning_group_name = c.winning_group_name;
    losing_group_id = c.losing_group_id;
    losing_group_name = c.losing_group_name;
    node_count = 1;
    example_certnames = certname ∷ [];
  }

  abbrev pub counted :
      String → ClassificationConflict N → Option AggregatedConflict → AggregatedConflict
  counted certname c none = first_seen certname c
  counted certname c (some a) = seen_again certname a

  -- The loop over a node's conflicts, with `seenOnThisNode`.
  unfoldable pub add_conflicts :
      String
      → List String
      → Dict AggregatedConflict
      → List (ClassificationConflict N)
      → Dict AggregatedConflict
  add_conflicts certname seen m [] = m
  add_conflicts certname seen m (c ∷ cs) =
      let skipped = add_conflicts certname seen m cs in
      let added =
        add_conflicts certname (identity c ∷ seen)
          (put m (identity c) (counted certname c (get m (identity c)))) cs in
      if includes seen (identity c) then skipped else added

  unfoldable pub add_row : Dict AggregatedConflict → NodeConflicts N → Dict AggregatedConflict
  unfolding add_conflicts
  add_row m row = add_conflicts row.certname [] m row.conflicts

  -- `byOverride` after the loop.
  unfoldable pub by_override : List (NodeConflicts N) → Dict AggregatedConflict
  unfolding add_row
  by_override rows = fold add_row [] rows

abbrev pub severity : ConflictKind → ℕ
severity environment = 0
severity _ = 1

module _ (js : Engine) where
  open js use {locale_before}

  abbrev name_before : AggregatedConflict → AggregatedConflict → Bool
  name_before a b =
      if str_eq a.key b.key
      then locale_before a.winning_group_name b.winning_group_name
      else locale_before a.key b.key

  -- `compare(a, b) < 0`
  unfoldable pub ranks_before : AggregatedConflict → AggregatedConflict → Bool
  ranks_before a b =
      if severity a.kind == severity b.kind
      then (if a.node_count == b.node_count then name_before a b else ltb b.node_count a.node_count)
      else ltb (severity a.kind) (severity b.kind)

  unfoldable pub aggregate_conflicts :
      {N : Type 0} → List (NodeConflicts N) → List AggregatedConflict
  unfolding by_override ranks_before
  aggregate_conflicts rows = sort ranks_before (values (by_override rows))
