-- ===== src/Materialization/Rules/Groups.antt =====
-- When a group of rule-evaluator.ts matches, and that the recorded reasons agree with it.
use mathlib.Core.Bool.{false≢true}
use nexuspuppet.Base.{
  Bool, true, ◌&&◌, List, [], ◌∷◌, map, ◌≡◌, ◌≢◌, ◌↔◌, arith, refl, ltb, length, every, any, All,
  Any, every_iff, any_iff, includes_iff, ℕ, if_iff, if_true, sym, ◌∙◌, ap, suc,
}
use nexuspuppet.Value.{Engine, Fields}
use nexuspuppet.Materialization.Rules.{
  MatchStrategy, all_rules, any_rule, pinned, NodeRule, EvaluableGroup, EvaluableNode,
  EvaluatedRule, evaluate_rule, group_matches, explain_rule, explain_match, by_strategy,
  explained_rules,
}

some_listed : (n : ℕ) (b : Bool) → (ltb 0 (suc n) && b) ≡ b
some_listed n b = ground arith

module _ (js : Engine) where
  open js use {Num}

  abbrev pub Satisfied : EvaluableNode Num → NodeRule Num → Type 0
  Satisfied node rule = evaluate_rule js node.facts rule ≡ true

  -- What each strategy asks of a node.
  abbrev pub Chosen : MatchStrategy → EvaluableNode Num → EvaluableGroup Num → Type 0
  Chosen pinned node group = Any (λ c. c ≡ node.certname) group.pinned_certnames
  Chosen all_rules node group = (group.rules ≢ []) × All (Satisfied node) group.rules
  Chosen any_rule node group = Any (Satisfied node) group.rules

  listed_every :
      (node : EvaluableNode Num) (rules : List (NodeRule Num))
      → ((ltb 0 (length rules) && every (evaluate_rule js node.facts) rules) ≡ true)
        ↔ ((rules ≢ []) × All (Satisfied node) rules)
  listed_every node [] = (λ e. absurd (false≢true e), λ h. absurd (h.0 refl))
  listed_every node (r ∷ rs) = rw some_listed (
    λ e. (λ n. cc, (every_iff (evaluate_rule js node.facts) (r ∷ rs)).0 e),
    λ h. (every_iff (evaluate_rule js node.facts) (r ∷ rs)).1 h.1,
  )

  listed_any :
      (node : EvaluableNode Num) (rules : List (NodeRule Num))
      → ((ltb 0 (length rules) && any (evaluate_rule js node.facts) rules) ≡ true)
        ↔ Any (Satisfied node) rules
  listed_any node [] = (λ e. absurd (false≢true e), λ h. absurd h)
  listed_any node (r ∷ rs) = rw some_listed (any_iff (evaluate_rule js node.facts) (r ∷ rs))

  by_strategy_iff :
      (s : MatchStrategy) (node : EvaluableNode Num) (group : EvaluableGroup Num)
      → (by_strategy js s node group ≡ true) ↔ Chosen s node group
  by_strategy_iff pinned node group = includes_iff group.pinned_certnames node.certname
  by_strategy_iff all_rules node group = listed_every node group.rules
  by_strategy_iff any_rule node group = listed_any node group.rules

  -- A group matches exactly when it is enabled and its strategy chooses the node: by a pin of the
  -- node's certname, by every rule of a list that is not empty, or by some rule.
  pub group_matches_iff :
      (node : EvaluableNode Num) (group : EvaluableGroup Num)
      → (group_matches js node group ≡ true)
        ↔ ((group.is_enabled ≡ true) × Chosen group.strategy node group)
  unfolding group_matches
  group_matches_iff node group =
      if_iff group.is_enabled (by_strategy js group.strategy node group)
        (by_strategy_iff group.strategy node group)

  -- The verdict that the recorded reasons amount to.
  abbrev pub verdict : MatchStrategy → List (EvaluatedRule Num) → Bool
  verdict pinned reasons = true
  verdict all_rules reasons = ltb 0 (length reasons) && every (λ r. r.matched) reasons
  verdict any_rule reasons = ltb 0 (length reasons) && any (λ r. r.matched) reasons

  every-explain :
      (facts : Fields Num) (rules : List (NodeRule Num))
      → every (λ r. r.matched) (map (explain_rule js facts) rules)
        ≡ every (evaluate_rule js facts) rules
  unfolding explain_rule
  every-explain facts [] = refl
  every-explain facts (r ∷ rs) = rw (every-explain facts rs)

  any-explain :
      (facts : Fields Num) (rules : List (NodeRule Num))
      → any (λ r. r.matched) (map (explain_rule js facts) rules)
        ≡ any (evaluate_rule js facts) rules
  unfolding explain_rule
  any-explain facts [] = refl
  any-explain facts (r ∷ rs) = rw (any-explain facts rs)

  length-explain :
      (facts : Fields Num) (rules : List (NodeRule Num))
      → length (map (explain_rule js facts) rules) ≡ length rules
  length-explain facts [] = refl
  length-explain facts (r ∷ rs) = ap suc (length-explain facts rs)

  verdict-explain :
      (s : MatchStrategy) (node : EvaluableNode Num) (group : EvaluableGroup Num)
      → s ≢ pinned
      → verdict s (explained_rules js s node group) ≡ by_strategy js s node group
  verdict-explain pinned node group h = absurd (h refl)
  verdict-explain all_rules node group h =
      cc (length-explain node.facts group.rules, every-explain node.facts group.rules)
  verdict-explain any_rule node group h =
      cc (length-explain node.facts group.rules, any-explain node.facts group.rules)

  -- The reasons recorded for a rule-based group that is enabled amount to its verdict: every
  -- rule, or some rule, is reported as matched exactly when the group matches.
  pub explain_match_agrees :
      (node : EvaluableNode Num) (group : EvaluableGroup Num)
      → group.is_enabled ≡ true
      → group.strategy ≢ pinned
      → verdict (explain_match js node group).strategy (explain_match js node group).rules
        ≡ group_matches js node group
  unfolding explain_match group_matches
  explain_match_agrees node group on h =
      verdict-explain group.strategy node group h ∙ sym (if_true group.is_enabled _ _ on)
