-- ===== src/Classification/Warnings/Laws.antt =====
-- That strategy-warnings.ts warns of what rule-evaluator.ts ignores.
use nexuspuppet.Base.{String, List, [], ◌∷◌, ◌≡◌, ◌≢◌, ◌↔◌, ◌⊎◌, arith, length}
use nexuspuppet.Value.{Engine}
use nexuspuppet.Materialization.Rules.{
  MatchStrategy, all_rules, any_rule, pinned, NodeRule, EvaluableGroup, EvaluableNode,
  group_matches,
}
use nexuspuppet.Classification.Warnings.{strategy_warnings, shape_of}

module _ (js : Engine) where
  open js use {Num}

  -- The group holds what its strategy ignores, or lacks what its strategy needs.
  abbrev pub Inert : EvaluableGroup Num → Type 0
  Inert group =
      (group.strategy ≡ pinned) × (group.rules ≢ [])
      ⊎ (group.strategy ≢ pinned) × ((group.pinned_certnames ≢ []) ⊎ (group.rules ≡ []))

  -- There is a warning exactly where a pinned group has rules, or a group of rules has pins or has
  -- no rules.
  pub strategy_warnings_iff :
      (group : EvaluableGroup Num) → (strategy_warnings js (shape_of group) ≢ []) ↔ Inert group
  unfolding strategy_warnings
  strategy_warnings_iff group = by_parts group.strategy group.rules group.pinned_certnames
    where
      by_parts :
          (s : MatchStrategy) (rules : List (NodeRule Num)) (pins : List String)
          → (strategy_warnings js
                (record { strategy = s; rule_count = length rules; pin_count = length pins })
              ≢ [])
            ↔ ((s ≡ pinned) × (rules ≢ []) ⊎ (s ≢ pinned) × ((pins ≢ []) ⊎ (rules ≡ [])))
      by_parts pinned [] pins = ground arith
      by_parts pinned (r ∷ rs) pins = ground arith
      by_parts all_rules [] [] = ground arith
      by_parts all_rules [] (p ∷ ps) = ground arith
      by_parts all_rules (r ∷ rs) [] = ground arith
      by_parts all_rules (r ∷ rs) (p ∷ ps) = ground arith
      by_parts any_rule [] [] = ground arith
      by_parts any_rule [] (p ∷ ps) = ground arith
      by_parts any_rule (r ∷ rs) [] = ground arith
      by_parts any_rule (r ∷ rs) (p ∷ ps) = ground arith

  -- The group with other rules where it is pinned, and with other pins where it is not.
  abbrev pub with_ignored :
      MatchStrategy → EvaluableGroup Num → List (NodeRule Num) → List String → EvaluableGroup Num
  with_ignored pinned group rules pins = record group { rules = rules }
  with_ignored _ group rules pins = record group { pinned_certnames = pins }

  -- What a warning says is ignored decides nothing: the rules of a pinned group, and the pins of a
  -- group of rules, may be any others and the group matches the same nodes.
  pub ignored_by_strategy :
      (node : EvaluableNode Num) (group : EvaluableGroup Num) (rules : List (NodeRule Num))
      (pins : List String)
      → group_matches js node (with_ignored group.strategy group rules pins)
        ≡ group_matches js node group
  unfolding group_matches
  ignored_by_strategy node group rules pins = ground arith
