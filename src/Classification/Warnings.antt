-- ===== src/Classification/Warnings.antt =====
-- apps/api/src/classification/pure/strategy-warnings.ts: what a group's strategy ignores.
pub mod Laws
use Prim.Native.String
use nexuspuppet.Base.{
  ℕ, String, Bool, true, false, List, [], ◌∷◌, ◌++◌, length, ltb, ◌==◌, if◌then◌else◌,
}
use nexuspuppet.Value.{Engine}
use nexuspuppet.Value.Text.{join}
use nexuspuppet.Materialization.Rules.{MatchStrategy, all_rules, any_rule, pinned, EvaluableGroup}

pub record GroupShape : Type 0 where
  pub strategy : MatchStrategy
  pub rule_count : ℕ
  pub pin_count : ℕ

-- `shapeOf` of classification.service.ts
abbrev pub shape_of : {N : Type 0} → EvaluableGroup N → GroupShape
shape_of group = record {
  strategy = group.strategy;
  rule_count = length group.rules;
  pin_count = length group.pinned_certnames;
}

abbrev strategy_text : MatchStrategy → String
strategy_text all_rules = "ALL_RULES"
strategy_text any_rule = "ANY_RULE"
strategy_text pinned = "PINNED"

abbrev verb : ℕ → String
verb n = if n == 1 then "decides" else "decide"

abbrev them : ℕ → String
them n = if n == 1 then "it" else "them"

module _ (js : Engine) where
  abbrev plural : ℕ → String → String
  plural n word =
      join "" (js.num_text (js.num_of n) ∷ " " ∷ word ∷ (if n == 1 then "" else "s") ∷ [])

  unfoldable pub ignored_rules : ℕ → String
  unfolding join
  ignored_rules n = join "" (
      "This group's strategy is PINNED, so its "
      ∷ plural n "rule"
      ∷ " currently "
      ∷ verb n
      ∷ " nothing. Change the strategy to ALL_RULES or ANY_RULE to use "
      ∷ them n
      ∷ "."
      ∷ [])

  unfoldable pub ignored_pins : MatchStrategy → ℕ → String
  unfolding join
  ignored_pins strategy n = join "" (
      "This group's strategy is "
      ∷ strategy_text strategy
      ∷ ", so its "
      ∷ plural n "pinned node"
      ∷ " currently "
      ∷ verb n
      ∷ " nothing. Change the strategy to PINNED to use "
      ∷ them n
      ∷ "."
      ∷ [])

  abbrev rule_based : GroupShape → List String
  rule_based group =
      (if ltb 0 group.pin_count then ignored_pins group.strategy group.pin_count ∷ [] else [])
      ++ (if group.rule_count == 0
          then "A rule-based group with no rules matches no nodes." ∷ []
          else [])

  abbrev warnings_by : MatchStrategy → GroupShape → List String
  warnings_by pinned group =
      if ltb 0 group.rule_count then ignored_rules group.rule_count ∷ [] else []
  warnings_by _ group = rule_based group

  unfoldable pub strategy_warnings : GroupShape → List String
  strategy_warnings group = warnings_by group.strategy group
