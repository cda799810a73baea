-- ===== src/Plan.antt =====
-- apps/api/src/classification/plan/apply-operation.ts, with the plan requests of
-- packages/contracts/src/plan.ts: a proposed change applied to a copy of the groups.
pub mod Scan
use nexuspuppet.Base.{
  ℕ, String, Bool, true, false, not, ◌||◌, Option, none, some, List, [], ◌∷◌, ◌++◌, str_eq,
  if◌then◌else◌, keep, includes,
}
use nexuspuppet.Base.Dict.{Dict, get, put, remove}
use nexuspuppet.Value.{Value}
use nexuspuppet.Materialization.Rules.{EvaluableGroup, NodeRule, MatchStrategy}
use nexuspuppet.Materialization.Merge.{MergeableGroup}
use nexuspuppet.Materialization.Classify.{GroupSet}

-- What `update-group` may set; an absent field is `none`, a null environment is `some none`.
pub record GroupUpdate : Type 0 where
  pub rank : Option ℕ
  pub environment : Option (Option String)
  pub is_enabled : Option Bool
  pub strategy : Option MatchStrategy

pub data Operation (N : Type 0) : Type 0 where
  replace_rules : List (NodeRule N) → Operation N
  assign_class : String → Dict (Value N) → Operation N
  remove_class : String → Operation N
  set_parameter : String → Value N → Operation N
  remove_parameter : String → Operation N
  update_group : GroupUpdate → Operation N
  delete_group : Operation N
  pin : List String → Operation N
  unpin : List String → Operation N

pub record PlanRequest (N : Type 0) : Type 0 where
  pub group_id : String
  pub operation : Operation N

abbrev pub or_else {ℓ} : {A : Type ℓ} → Option A → A → A
or_else none a = a
or_else (some b) a = b

abbrev is_given {ℓ} : {A : Type ℓ} → Option A → Bool
is_given none = false
is_given (some a) = true

-- `[...new Set(xs)]`, the earlier ones first.
abbrev unique_from : List String → List String → List String
unique_from seen [] = seen
unique_from seen (x ∷ xs) = unique_from (if includes seen x then seen else seen ++ x ∷ []) xs

unfoldable pub unique : List String → List String
unique xs = unique_from [] xs

module _ {N : Type 0} where
  -- `evaluable.find((g) => g.id === id)`
  unfoldable pub find_group : String → List (EvaluableGroup N) → Option (EvaluableGroup N)
  find_group id [] = none
  find_group id (g ∷ gs) = if str_eq g.id id then some g else find_group id gs

  -- An assignment to fields of the group that `find` returned.
  unfoldable pub change_group :
      String
      → (EvaluableGroup N → EvaluableGroup N)
      → List (EvaluableGroup N)
      → List (EvaluableGroup N)
  change_group id f [] = []
  change_group id f (g ∷ gs) = if str_eq g.id id then f g ∷ gs else g ∷ change_group id f gs

  abbrev pub update_evaluable : GroupUpdate → EvaluableGroup N → EvaluableGroup N
  update_evaluable u g = record g {
    rank = or_else u.rank g.rank;
    is_enabled = or_else u.is_enabled g.is_enabled;
    strategy = or_else u.strategy g.strategy;
  }

  -- What the operation does to the group that the rules and pins are read from.
  abbrev pub on_evaluable : Operation N → EvaluableGroup N → EvaluableGroup N
  on_evaluable (replace_rules rules) g = record g { rules = rules }
  on_evaluable (update_group u) g = update_evaluable u g
  on_evaluable (pin certnames) g = record g {
    pinned_certnames = unique (g.pinned_certnames ++ certnames);
  }
  on_evaluable (unpin certnames) g = record g {
    pinned_certnames = keep (λ c. not (includes certnames c)) g.pinned_certnames;
  }
  on_evaluable _ g = g

  -- What it does to the group that the document is merged from.
  abbrev pub on_mergeable : Operation N → MergeableGroup N → MergeableGroup N
  on_mergeable (assign_class c params) g = record g { classes = put g.classes c params }
  on_mergeable (remove_class c) g = record g { classes = remove g.classes c }
  on_mergeable (set_parameter k v) g = record g { parameters = put g.parameters k v }
  on_mergeable (remove_parameter k) g = record g { parameters = remove g.parameters k }
  on_mergeable (update_group u) g = record g { environment = or_else u.environment g.environment }
  on_mergeable _ g = g

  abbrev pub has_id : String → EvaluableGroup N → Bool
  has_id id g = str_eq g.id id

  abbrev pub perform : GroupSet N → String → Operation N → MergeableGroup N → GroupSet N
  perform groups id delete_group m = record {
    evaluable = keep (λ g. not (has_id id g)) groups.evaluable;
    mergeable_by_id = remove groups.mergeable_by_id id;
  }
  perform groups id op m = record {
    evaluable = change_group id (on_evaluable op) groups.evaluable;
    mergeable_by_id = put groups.mergeable_by_id id (on_mergeable op m);
  }

  abbrev pub perform_found :
      GroupSet N
      → PlanRequest N
      → Option (EvaluableGroup N)
      → Option (MergeableGroup N)
      → Option (GroupSet N)
  perform_found groups request (some g) (some m) =
      some (perform groups request.group_id request.operation m)
  perform_found groups request _ _ = none

  -- `none` is the `UnknownGroupError`. `copy` has no counterpart: values are not shared.
  unfoldable pub apply_operation : GroupSet N → PlanRequest N → Option (GroupSet N)
  unfolding find_group change_group unique
  apply_operation groups request =
      perform_found groups request (find_group request.group_id groups.evaluable)
        (get groups.mergeable_by_id request.group_id)

  abbrev operation_changes : Operation N → Bool
  operation_changes (assign_class c params) = false
  operation_changes (remove_class c) = false
  operation_changes (set_parameter k v) = false
  operation_changes (remove_parameter k) = false
  operation_changes (update_group u) = is_given u.is_enabled || is_given u.strategy
  operation_changes _ = true

  unfoldable pub changes_membership : PlanRequest N → Bool
  changes_membership request = operation_changes request.operation
