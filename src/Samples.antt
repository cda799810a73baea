-- ===== src/Samples.antt =====
-- The data that the tests run the program on, and a small engine for it: its numbers are natural,
-- a pattern matches the text that it is, and collation goes by the number of characters.
use nexuspuppet.Base.{
  ℕ, String, Bool, true, none, some, [], ◌∷◌, arith, ltb, ◌==◌, str_eq, length, if◌then◌else◌,
}
use nexuspuppet.Base.Sort.{IsWeakOrder}
use nexuspuppet.Value.{Engine, num, str, arr, obj, nil, cons, end, field}
use nexuspuppet.Value.Text.{codes}
use nexuspuppet.Materialization.Rules.{
  all_rules, any_rule, pinned, RuleOperator, equals, not_exists, NodeRule, EvaluableGroup,
  EvaluableNode,
}
use nexuspuppet.Materialization.Merge.{MergeableGroup}
use nexuspuppet.Materialization.Classify.{GroupSet}

abbrev count : String → ℕ
count s = length (codes s)

abbrev shorter : String → String → Bool
shorter a b = ltb (count a) (count b)

abbrev pub engine : Engine
engine = record {
  Num = ℕ;
  num_eq = ◌==◌;
  num_lt = ltb;
  is_finite = λ n. true;
  num_text = λ n. if n == 0 then "0" else "1";
  parse_num = λ s. count s;
  num_of = λ n. n;
  regex_test = λ pattern text. some (str_eq pattern text);
  to_lower = λ s. s;
  locale_before = shorter;
}

pub engine-IsWeakOrder : IsWeakOrder engine.locale_before
engine-IsWeakOrder = record { asym = λ a b h. ground arith; cotrans = λ a b c h k. ground arith }

abbrev pub web_node : EvaluableNode ℕ
web_node = record {
  certname = "web01";
  facts =
      field "os" (obj (field "family" (str "RedHat") (field "cores" (num 4) end)))
        (field "roles" (arr (cons (str "web") (cons (str "cache") nil))) end);
}

abbrev pub family_is : RuleOperator → String → NodeRule ℕ
family_is op family = record { fact_path = "os.family"; operator = op; value = some (str family) }

abbrev pub kernel_rule : RuleOperator → NodeRule ℕ
kernel_rule op = record { fact_path = "os.kernel"; operator = op; value = some (str "linux") }

abbrev pub base_group : EvaluableGroup ℕ
base_group = record {
  id = "g";
  name = "base";
  rank = 0;
  strategy = all_rules;
  is_enabled = true;
  rules = family_is equals "RedHat" ∷ kernel_rule not_exists ∷ [];
  pinned_certnames = [];
}

abbrev pub web_group : EvaluableGroup ℕ
web_group = record {
  id = "gg";
  name = "web";
  rank = 10;
  strategy = any_rule;
  is_enabled = true;
  rules = family_is equals "Debian" ∷ family_is equals "RedHat" ∷ [];
  pinned_certnames = [];
}

abbrev pub pin_group : EvaluableGroup ℕ
pin_group = record {
  id = "ggg";
  name = "pins";
  rank = 10;
  strategy = pinned;
  is_enabled = true;
  rules = [];
  pinned_certnames = "db01" ∷ [];
}

abbrev pub base_data : MergeableGroup ℕ
base_data = record {
  id = "g";
  name = "base";
  environment = some "production";
  classes = ("ntp", ("server", str "a") ∷ []) ∷ [];
  parameters = ("dc", str "east") ∷ [];
}

abbrev pub web_data : MergeableGroup ℕ
web_data = record {
  id = "gg";
  name = "web";
  environment = some "staging";
  classes = ("ntp", ("server", str "b") ∷ []) ∷ ("nginx", []) ∷ [];
  parameters = ("dc", str "west") ∷ ("tier", num 2) ∷ [];
}

abbrev pub pin_data : MergeableGroup ℕ
pin_data = record { id = "ggg"; name = "pins"; environment = none; classes = []; parameters = [] }

abbrev pub group_set : GroupSet ℕ
group_set = record {
  evaluable = pin_group ∷ web_group ∷ base_group ∷ [];
  mergeable_by_id = ("g", base_data) ∷ ("gg", web_data) ∷ ("ggg", pin_data) ∷ [];
}
