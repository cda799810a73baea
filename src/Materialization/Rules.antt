-- ===== src/Materialization/Rules.antt =====
-- apps/api/src/materialization/pure/rule-evaluator.ts, with the rule types of
-- packages/contracts/src/enc.ts: which groups match a node, and in which order they merge.
pub mod Operators
pub mod Groups
pub mod Order
use nexuspuppet.Base.{
  ℕ, String, Bool, true, false, not, ◌&&◌, Option, none, some, List, [], ◌∷◌, map, ltb, ◌==◌,
  str_eq, if◌then◌else◌, length, every, any, keep, includes,
}
use nexuspuppet.Base.Sort.{sort}
use nexuspuppet.Value.{
  Engine, Value, null, bool, num, str, arr, obj, Items, nil, cons, Fields, end, field,
}
use nexuspuppet.Value.Text.{split_at, is_blank, index_of}

pub data RuleOperator : Type 0 where
  equals not_equals matches_regex not_matches_regex is_in not_in : RuleOperator
  greater_than less_than exists not_exists : RuleOperator

pub data MatchStrategy : Type 0 where
  all_rules any_rule pinned : MatchStrategy

-- An absent `value` is `none`.
pub record NodeRule (N : Type 0) : Type 0 where
  pub fact_path : String
  pub operator : RuleOperator
  pub value : Option (Value N)

pub record EvaluableGroup (N : Type 0) : Type 0 where
  pub id : String
  pub name : String
  pub rank : ℕ
  pub strategy : MatchStrategy
  pub is_enabled : Bool
  pub rules : List (NodeRule N)
  pub pinned_certnames : List String

pub record EvaluableNode (N : Type 0) : Type 0 where
  pub certname : String
  pub facts : Fields N

pub record EvaluatedRule (N : Type 0) : Type 0 where
  pub fact_path : String
  pub operator : RuleOperator
  pub expected : Option (Value N)
  pub actual : Option (Value N)
  pub fact_missing : Bool
  pub matched : Bool

pub record GroupMatchExplanation (N : Type 0) : Type 0 where
  pub group_id : String
  pub strategy : MatchStrategy
  pub rules : List (EvaluatedRule N)

module _ {N : Type 0} where
  unfoldable pub field_of : Fields N → String → Option (Value N)
  field_of end k = none
  field_of (field j v fs) k = if str_eq j k then some v else field_of fs k

  unfoldable pub item_at : Items N → ℕ → Option (Value N)
  item_at nil i = none
  item_at (cons v vs) ℕ.zero = some v
  item_at (cons v vs) (ℕ.suc i) = item_at vs i

  unfoldable pub count_items : Items N → ℕ
  count_items nil = 0
  count_items (cons v vs) = ℕ.suc (count_items vs)

  unfoldable pub is_missing : Option (Value N) → Bool
  is_missing none = true
  is_missing (some v) = false

module _ (js : Engine) where
  open js use {Num, num_lt, is_finite, num_text, parse_num, num_of, regex_test, locale_before}

  -- An own property of an array: an element, or its length.
  unfoldable pub array_property : Items Num → String → Option (Value Num)
  unfolding item_at count_items index_of
  array_property vs k =
      if str_eq k "length"
      then some (num (num_of (count_items vs)))
      else elim (index_of k) [ none ↦ none | some i ↦ item_at vs i ]

  -- One round of the loop of `resolveFactPath`: `undefined` where `current` is no object.
  unfoldable pub property : Value Num → String → Option (Value Num)
  unfolding field_of array_property
  property (obj fs) k = field_of fs k
  property (arr vs) k = array_property vs k
  property _ k = none

  unfoldable pub resolve_from : Value Num → List String → Option (Value Num)
  unfolding property
  resolve_from v [] = some v
  resolve_from v (segment ∷ segments) = elim (property v segment) [
    | none ↦ none
    | some u ↦ resolve_from u segments
  ]

  unfoldable pub resolve_fact_path : Fields Num → String → Option (Value Num)
  unfolding resolve_from split_at
  resolve_fact_path facts path =
      if str_eq path "" then none else resolve_from (obj facts) (split_at b'.' path)

  -- `String(v)` of a scalar; `none` for an object or an array.
  unfoldable pub scalar_text : Value Num → Option String
  scalar_text null = some "null"
  scalar_text (bool true) = some "true"
  scalar_text (bool false) = some "false"
  scalar_text (num n) = some (num_text n)
  scalar_text (str s) = some s
  scalar_text _ = none

  abbrev same_text : Option String → Option String → Bool
  same_text (some s) (some t) = str_eq s t
  same_text _ _ = false

  abbrev is_null : Value Num → Bool
  is_null null = true
  is_null _ = false

  unfoldable pub loose_scalar_equals : Option (Value Num) → Option (Value Num) → Bool
  unfolding scalar_text
  loose_scalar_equals (some a) (some e) =
      if is_null a
      then is_null e
      else if is_null e
      then false
      else same_text (scalar_text a) (scalar_text e)
  loose_scalar_equals _ _ = false

  abbrev tested : Option Bool → Bool
  tested none = false
  tested (some b) = b

  abbrev regex_on : String → Option String → Bool
  regex_on pattern none = false
  regex_on pattern (some text) = tested (regex_test pattern text)

  unfoldable pub regex_matches : Option (Value Num) → Option (Value Num) → Bool
  unfolding scalar_text
  regex_matches (some a) (some (str pattern)) =
      if is_null a then false else regex_on pattern (scalar_text a)
  regex_matches _ _ = false

  abbrev finite_or_none : Num → Option Num
  finite_or_none n = if is_finite n then some n else none

  unfoldable pub to_number : Option (Value Num) → Option Num
  unfolding is_blank
  to_number (some (num n)) = finite_or_none n
  to_number (some (str s)) = if is_blank s then none else finite_or_none (parse_num s)
  to_number _ = none

  abbrev compare_found : (Num → Num → Bool) → Option Num → Option Num → Bool
  compare_found compare (some a) (some b) = compare a b
  compare_found compare _ _ = false

  unfoldable pub compare_numeric :
      Option (Value Num) → Option (Value Num) → (Num → Num → Bool) → Bool
  unfolding to_number
  compare_numeric actual expected compare =
      compare_found compare (to_number actual) (to_number expected)

  -- `expected.some((e) => looseScalarEquals(actual, e))`
  unfoldable pub some_equal : Option (Value Num) → Items Num → Bool
  unfolding loose_scalar_equals
  some_equal actual nil = false
  some_equal actual (cons e es) =
      if loose_scalar_equals actual (some e) then true else some_equal actual es

  unfoldable pub apply_operator : RuleOperator → Option (Value Num) → Option (Value Num) → Bool
  unfolding is_missing loose_scalar_equals regex_matches compare_numeric some_equal
  apply_operator exists actual expected = not (is_missing actual)
  apply_operator not_exists actual expected = is_missing actual
  apply_operator equals actual expected = loose_scalar_equals actual expected
  apply_operator not_equals actual expected =
      not (is_missing actual) && not (loose_scalar_equals actual expected)
  apply_operator matches_regex actual expected = regex_matches actual expected
  apply_operator not_matches_regex actual expected =
      not (is_missing actual) && not (regex_matches actual expected)
  apply_operator is_in actual (some (arr es)) = some_equal actual es
  apply_operator is_in actual _ = false
  apply_operator not_in actual (some (arr es)) =
      not (is_missing actual) && not (some_equal actual es)
  apply_operator not_in actual _ = false
  apply_operator greater_than actual expected = compare_numeric actual expected (λ a b. num_lt b a)
  apply_operator less_than actual expected = compare_numeric actual expected num_lt

  unfoldable pub evaluate_rule : Fields Num → NodeRule Num → Bool
  unfolding resolve_fact_path apply_operator
  evaluate_rule facts rule =
      apply_operator rule.operator (resolve_fact_path facts rule.fact_path) rule.value

  abbrev by_strategy : MatchStrategy → EvaluableNode Num → EvaluableGroup Num → Bool
  by_strategy pinned node group = includes group.pinned_certnames node.certname
  by_strategy all_rules node group =
      ltb 0 (length group.rules) && every (evaluate_rule node.facts) group.rules
  by_strategy any_rule node group =
      ltb 0 (length group.rules) && any (evaluate_rule node.facts) group.rules

  unfoldable pub group_matches : EvaluableNode Num → EvaluableGroup Num → Bool
  unfolding evaluate_rule
  group_matches node group =
      if group.is_enabled then by_strategy group.strategy node group else false

  -- The comparison of `matchGroups` is below 0.
  unfoldable pub merges_before : EvaluableGroup Num → EvaluableGroup Num → Bool
  merges_before a b = if a.rank == b.rank then locale_before a.id b.id else ltb a.rank b.rank

  unfoldable pub match_groups :
      EvaluableNode Num → List (EvaluableGroup Num) → List (EvaluableGroup Num)
  unfolding group_matches merges_before
  match_groups node groups = sort merges_before (keep (group_matches node) groups)

  unfoldable pub explain_rule : Fields Num → NodeRule Num → EvaluatedRule Num
  unfolding resolve_fact_path evaluate_rule is_missing
  explain_rule facts rule =
      let actual = resolve_fact_path facts rule.fact_path in
      record {
        fact_path = rule.fact_path;
        operator = rule.operator;
        expected = rule.value;
        actual = actual;
        fact_missing = is_missing actual;
        matched = evaluate_rule facts rule;
      }

  abbrev explained_rules :
      MatchStrategy → EvaluableNode Num → EvaluableGroup Num → List (EvaluatedRule Num)
  explained_rules pinned node group = []
  explained_rules _ node group = map (explain_rule node.facts) group.rules

  unfoldable pub explain_match : EvaluableNode Num → EvaluableGroup Num → GroupMatchExplanation Num
  unfolding explain_rule
  explain_match node group = record {
    group_id = group.id;
    strategy = group.strategy;
    rules = explained_rules group.strategy node group;
  }
