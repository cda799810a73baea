-- ===== src/Materialization/Classify.antt =====
-- The evaluation that `materializeNode` of apps/api/src/materialization/materializer.service.ts
-- and the planner share: match, look up, merge.
use nexuspuppet.Base.{none, some, List, [], ◌∷◌}
use nexuspuppet.Base.Dict.{Dict, get}
use nexuspuppet.Value.{Engine}
use nexuspuppet.Materialization.Rules.{EvaluableGroup, EvaluableNode, match_groups}
use nexuspuppet.Materialization.Merge.{MergeableGroup, MergeResult, merge_groups}

-- `LoadedGroups`, which is the `GroupSet` of the planner too.
pub record GroupSet (N : Type 0) : Type 0 where
  pub evaluable : List (EvaluableGroup N)
  pub mergeable_by_id : Dict (MergeableGroup N)

-- `matched.map((g) => groups.mergeableById.get(g.id)).filter(isPresent)`
unfoldable pub mergeable_of :
    {N : Type 0} → Dict (MergeableGroup N) → List (EvaluableGroup N) → List (MergeableGroup N)
mergeable_of m [] = []
mergeable_of m (g ∷ gs) = elim (get m g.id) [
  | none ↦ mergeable_of m gs
  | some x ↦ x ∷ mergeable_of m gs
]

module _ (js : Engine) where
  open js use {Num}

  unfoldable pub classify : EvaluableNode Num → GroupSet Num → MergeResult Num
  unfolding match_groups mergeable_of merge_groups
  classify node groups =
      merge_groups js (mergeable_of groups.mergeable_by_id (match_groups js node groups.evaluable))
