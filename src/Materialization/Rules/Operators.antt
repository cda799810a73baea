-- ===== src/Materialization/Rules/Operators.antt =====
-- What the operators of rule-evaluator.ts answer for a missing fact, and how each relates to its
-- negation.
use nexuspuppet.Base.{true, false, not, Option, none, some, ◌≡◌, ◌↔◌, arith, refl}
use nexuspuppet.Value.{Engine, Value, Items, nil, cons, arr, Fields}
use nexuspuppet.Materialization.Rules.{
  RuleOperator, equals, not_equals, matches_regex, not_matches_regex, is_in, not_in, exists,
  not_exists, NodeRule, resolve_fact_path, apply_operator, evaluate_rule, some_equal,
}

-- The operator that asks for the opposite, where the language of rules has one.
abbrev pub opposite : RuleOperator → Option RuleOperator
opposite equals = some not_equals
opposite matches_regex = some not_matches_regex
opposite is_in = some not_in
opposite exists = some not_exists
opposite _ = none

-- `IN` and `NOT_IN` are given a list, as their documents say.
abbrev pub HasList : {N : Type 0} → RuleOperator → Option (Value N) → Type 0
HasList is_in (some (arr vs)) = Unit
HasList is_in _ = ⊥
HasList _ _ = Unit

module _ (js : Engine) where
  open js use {Num}

  some_equal-missing : (es : Items Num) → some_equal js none es ≡ false
  unfolding some_equal
  some_equal-missing nil = refl
  some_equal-missing (cons e es) = some_equal-missing es

  apply_operator-missing :
      (op : RuleOperator) (expected : Option (Value Num))
      → (apply_operator js op none expected ≡ true) ↔ (op ≡ not_exists)
  unfolding apply_operator
  apply_operator-missing is_in (some (arr es)) = ground (arith, some_equal-missing es)
  apply_operator-missing op expected = ground arith

  -- A rule whose fact path resolves to nothing matches exactly when its operator is NOT_EXISTS,
  -- whatever value it is given: no negated operator is satisfied by an absent fact.
  pub missing_fact :
      (facts : Fields Num) (rule : NodeRule Num)
      → resolve_fact_path js facts rule.fact_path ≡ none
      → (evaluate_rule js facts rule ≡ true) ↔ (rule.operator ≡ not_exists)
  unfolding evaluate_rule
  missing_fact facts rule e = rw e (apply_operator-missing rule.operator rule.value)

  -- On a fact that is there, an operator and its opposite give opposite answers; IN and NOT_IN do
  -- so where they are given a list.
  pub present_fact :
      (op negated : RuleOperator) (actual : Value Num) (expected : Option (Value Num))
      → opposite op ≡ some negated
      → HasList op expected
      → apply_operator js negated (some actual) expected
        ≡ not (apply_operator js op (some actual) expected)
  unfolding apply_operator
  present_fact equals negated actual expected e h = ground arith
  present_fact op negated actual expected e h = ground arith
